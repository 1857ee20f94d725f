-- ===== src/FileSystem/Opened/Tests.antt =====
-- Runs of the chain behind `OnOpenComplete`.
use kode.Prelude.{◌≡◌, refl, false, true, [], ◌∷◌, arith}
use kode.Text.{codes}
use kode.FileSystem.Opened.{
  Operation, ended, crashed, crashes, give_up, finish_read, opens, fstat_fails, starts_read, reads,
  closes, Reach, start, later,
}
use kode.FileSystem.Opened.Ledger.{IsTyped, GoesOn, IsTyped-Reach}

abbrev two_bytes : Operation
two_bytes = record {
  turn = ended;
  allocated = false;
  buffer = false;
  file = false;
  calls = ([], codes "ok") ∷ [];
}

two_bytes_reached : Reach true two_bytes
unfolding finish_read
two_bytes_reached =
    later
      (later (later (later start (opens refl)) (starts_read 2 refl))
        (reads (codes "ok") 2 refl (omega arith) refl))
      (closes refl)

IsTyped-Reach_example : IsTyped two_bytes × GoesOn true two_bytes
IsTyped-Reach_example = IsTyped-Reach true two_bytes two_bytes_reached

-- A read that is well, where libuv has let go of the buffer.
no_buffer : (o : Operation) × Reach false o × (o.turn ≡ crashed) × (o.calls ≡ [])
no_buffer = (
  _,
  later (later (later start (opens refl)) (starts_read 2 refl)) (crashes 2 refl refl),
  refl,
  refl,
)

-- An operation that cannot read the size of its file leaves the file open.
no_stats : (o : Operation) × Reach true o × (o.turn ≡ ended) × (o.file ≡ true)
unfolding give_up
no_stats = (_, later (later start (opens refl)) (fstat_fails (codes "EIO") refl), refl, refl)
