-- ===== src/S3/Observer/Tail/Laws.antt =====
-- Reading in pieces.
use s3_agent.Prelude.{
  ℕ, ◌+◌, ◌≡◌, true, false, some, ◌++◌, ltb, Text, length, length-append, drop-append, arith,
}
use s3_agent.S3.Observer.Tail.{LogFile, read_new}

abbrev pub intact : Text → LogFile
intact bytes = record { bytes = bytes; stat_fails = false; seek_fails = false; read_fails = false }

-- Where no call on the file fails, what is appended to a log is read once: a read behind the bytes
-- `old` gives the new bytes, and the next offset is the size of the file.
pub read_new-append :
    (old new : Text)
    → read_new (some (intact (old ++ new))) (length old) ≡ (new, length old + length new)
unfolding read_new
read_new-append old new = ground (arith, length-append old new, drop-append old new)

-- Where no call on the file fails, a log that became smaller than the offset is read from its
-- beginning.
pub read_new_rotated :
    (bytes : Text) (offset : ℕ)
    → ltb (length bytes) offset ≡ true
    → read_new (some (intact bytes)) offset ≡ (bytes, length bytes)
unfolding read_new
read_new_rotated bytes offset h = ground arith
