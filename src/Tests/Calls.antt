-- ===== src/Tests/Calls.antt =====
-- Calls on a queue of two blocks, one after the other.
use nix_mark_iv.Prelude.{refl, [], ◌∷◌}
use nix_mark_iv.Qio.Read.{qread}
use nix_mark_iv.Qio.Write.{qbwrite}
use nix_mark_iv.Qio.Drain.{fetched}
use nix_mark_iv.Qio.History.{written}
use nix_mark_iv.Prelude.{◌++◌}
use nix_mark_iv.Qio.History.{History, here, next, reads, writes, IsFifo, Calls-IsFifo}
use nix_mark_iv.Tests.{block, zeroed, two_blocks}

abbrev before : History
before = record { queue = two_blocks; given = 1 ∷ 2 ∷ 3 ∷ 4 ∷ 5 ∷ []; taken = [] }

before-IsFifo : IsFifo before
before-IsFifo = record {
  bytes = refl;
  valid = record { allocated = refl; queued = refl };
  order = refl;
}

-- After a read of 4 bytes and a write of one.
abbrev after : History
after = record {
  queue = (qbwrite (qread two_blocks 4).queue (block (6 ∷ []))).queue;
  given = before.given ++ written (qread two_blocks 4).queue (block (6 ∷ []));
  taken = fetched (qread two_blocks 4).ret;
}

Calls-IsFifo_example : IsFifo after
Calls-IsFifo_example =
    Calls-IsFifo {a = zeroed} before-IsFifo (next (next here (reads 4)) (writes (block (6 ∷ []))))
