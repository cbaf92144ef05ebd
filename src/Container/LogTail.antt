-- ===== src/Container/LogTail.antt =====
-- internal/container/logtail.go: a buffer that keeps the most recent bytes. A mutex makes each call
-- of `Write` and `String` one step.
pub mod Laws
use lstk.Prelude.{◌++◌, ◌-◌, drop, length, leb, ltb, [], if◌then◌else◌, ◌∷◌, List, ℕ, ok}

-- `logTail`, with a byte as a number.
pub record LogTail : Type 0 where
  pub buf : List ℕ
  pub max_bytes : ℕ

unfoldable pub new_log_tail : ℕ → LogTail
new_log_tail max_bytes = record { buf = []; max_bytes = max_bytes }

-- `Write`; `room` is the `keep` of its second test.
abbrev pub make_room : ℕ → List ℕ → List ℕ
make_room room buf = if ltb room (length buf) then drop (length buf - room) buf else buf

unfoldable pub write : LogTail → List ℕ → LogTail
write l p =
    if leb l.max_bytes (length p)
    then record { buf = drop (length p - l.max_bytes) p; max_bytes = l.max_bytes }
    else record { buf = make_room (l.max_bytes - length p) l.buf ++ p; max_bytes = l.max_bytes }

-- The writes of a log stream, one behind the other.
unfoldable pub write_all : LogTail → List (List ℕ) → LogTail
unfolding write
write_all l [] = l
write_all l (p ∷ ps) = write_all (write l p) ps
