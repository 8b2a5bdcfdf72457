-- ===== src/Links.antt =====
-- The table ShortLink of prisma/schema.prisma.
use nest_shortlink_platform.Common.{ℕ, String, Option, string_eq}
use nest_shortlink_platform.Cache.Redirect.{LinkStatus, Visibility}

-- A row; times are in milliseconds.
pub record ShortLink : Type 0 where
  pub id : String
  pub workspace_id : String
  pub created_by_id : String
  pub code : String
  pub original_url : String
  pub title : Option String
  pub visibility : Visibility
  pub status : LinkStatus
  pub expires_at : Option ℕ
  pub max_visits : Option ℕ
  pub visit_count : ℕ
  pub password_hash : Option String
  pub access_version : ℕ
