-- ===== src/Touch.antt =====
-- What the parts beside the manager ask of the machine: the requests of
-- internal/modules/s3/observer.go, and the files that cmd/agent/main.go and cmd/ctl/main.go open.
use s3_agent.Prelude.{Text}

-- A GET, a HEAD or a signed HEAD of a URL, a directory that is made, a file that is opened for
-- writing or for reading, and a temporary file beside a path, which is removed again.
pub data Touch : Type 0 where
  get head signed_head : Text → Touch
  made_directory opened_for_append opened_to_read : Text → Touch
  temporary_file : Text → Touch
