-- ===== src/Http.antt =====
-- The exceptions of @nestjs/common that the services throw, with their messages.
use nest_shortlink_platform.Common.{String, Option, none, some, Bool, false, not, ◌==◌, string_eq}

pub data HttpError : Type 0 where
  bad_request unauthorized forbidden not_found conflict gone : String → HttpError
  service_unavailable too_many_requests internal_server_error : String → HttpError

-- Whether an optional text counts as true: it is there, and is not empty.
unfoldable pub truthy : Option String → Bool
truthy none = false
truthy (some text) = not (text == "")
