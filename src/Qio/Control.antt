-- ===== src/Qio/Control.antt =====
-- Opening, closing and asking after the queues of port/qio.c.
use nix_mark_iv.Prelude.{ℕ, ◌-◌, Bool, true, false, [], ◌∷◌, take}
use nix_mark_iv.Qio.{Queue, Step, wake_reader, wake_writer, Err, unset, hungup, text}

-- The bits Qmsg, Qcoalesce and Qkick that qopen is given.
pub record Mode : Type 0 where
  pub msg : Bool
  pub coalesce : Bool
  pub always_kick : Bool

-- qopen of a queue that malloc has zeroed.
unfoldable pub qopen : ℕ → Mode → Bool → Queue
qopen limit mode kick = record {
  blocks = [];
  len = 0;
  dlen = 0;
  limit = limit;
  inilim = limit;
  starve = true;
  msg = mode.msg;
  closed = false;
  flow = false;
  coalesce = mode.coalesce;
  always_kick = mode.always_kick;
  noblock = false;
  eof = 0;
  kick = kick;
  bypass = false;
  err = unset;
}

unfoldable pub qbypass : Queue
unfolding qopen
qbypass = record (qopen 0 (record { msg = false; coalesce = false; always_kick = false }) false) {
  starve = false;
  bypass = true;
}

unfoldable pub qclose : Queue → Step (Unit {0})
qclose q = record {
  ret = tt;
  queue = record q {
    closed = true;
    flow = false;
    starve = false;
    err = hungup;
    blocks = [];
    len = 0;
    dlen = 0;
    noblock = false;
  };
  freed = q.blocks;
  signals = wake_reader ∷ wake_writer ∷ [];
}

-- ERRMAX of port/lib.h.
abbrev pub errmax : ℕ
errmax = 128

-- The error that qhangup leaves: Ehungup for a message that is nil or empty.
hangup_err : Err → Err
hangup_err (text []) = hungup
hangup_err (text (c ∷ cs)) = text (take (errmax - 1) (c ∷ cs))
hangup_err e = hungup

unfoldable pub qhangup : Queue → Err → Step (Unit {0})
unfolding hangup_err
qhangup q msg = record {
  ret = tt;
  queue = record q { closed = true; err = hangup_err msg };
  freed = [];
  signals = wake_reader ∷ wake_writer ∷ [];
}

unfoldable pub qreopen : Queue → Queue
qreopen q = record q { closed = false; starve = true; eof = 0; limit = q.inilim }

unfoldable pub qflush : Queue → Step (Unit {0})
qflush q = record {
  ret = tt;
  queue = record q { blocks = []; len = 0; dlen = 0 };
  freed = q.blocks;
  signals = wake_writer ∷ [];
}

unfoldable pub qsetlimit : Queue → ℕ → Queue
qsetlimit q limit = record q { limit = limit }

unfoldable pub qnoblock : Queue → Bool → Queue
qnoblock q onoff = record q { noblock = onoff }

unfoldable pub qisclosed : Queue → Bool
qisclosed q = q.closed

unfoldable pub qlen : Queue → ℕ
qlen q = q.dlen

-- The subtraction stops at 0, as the test does.
unfoldable pub qwindow : Queue → ℕ
qwindow q = q.limit - q.len

unfoldable pub qcanread : Queue → Bool
qcanread q = elim q.blocks [ [] ↦ false | b ∷ rest ↦ true ]

unfoldable pub qfull : Queue → Bool
qfull q = q.flow
