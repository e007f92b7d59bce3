-- ===== src/Js/Url.antt =====
-- `URL`, as far as the sources look at it.
use vsn_voice_ai.Prelude.{Bool, ◌||◌, ◌==◌, length}
use vsn_voice_ai.Js.Text.{Text, text, text_eq}

-- The parts of a parsed URL that the sources read.
pub record Url : Type 0 where
  pub protocol : Text
  pub hostname : Text
  pub username : Text
  pub password : Text
  pub pathname : Text
  pub search : Text
  pub hash : Text
  pub origin : Text

abbrev pub is_loopback_host : Text → Bool
is_loopback_host h =
    text_eq h (text "localhost") || text_eq h (text "127.0.0.1") || text_eq h (text "[::1]")

abbrev pub is_empty : Text → Bool
is_empty s = length s == 0
