-- ===== src/Sha256/Tests.antt =====
-- A test vector, and the padding at its input.
use kode.Prelude.{◌≡◌, refl, ◌%◌, length, arith}
use kode.Text.{codes}
use kode.Sha256.{sha256, to_hex, round, pad}
use kode.Sha256.Padding.{read_message, read_message-pad}

sha256_abc :
    to_hex (sha256 (codes "abc"))
    ≡ codes "ba7816bf8f01cfea414140de5dae2223b00361a396177a9cb410ff61f20015ad"
unfolding sha256 to_hex round
sha256_abc = refl

read_message-pad_example :
    (length (pad (codes "abc")) % 64 ≡ 0) × (read_message (pad (codes "abc")) ≡ codes "abc")
read_message-pad_example = read_message-pad (codes "abc") (omega arith)
