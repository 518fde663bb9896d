-- ===== src/App/Token.antt =====
-- `require_admin_token` of gestalt/main.py
use gestalt_agentic_software.Python.Exec.{Result, raise_with, http_error, ok}
use gestalt_agentic_software.Prelude.Strip.{strip}
use gestalt_agentic_software.Prelude.{
  String, Option, if◌then◌else◌, some, str_eq, none, starts_with, codes,
}

-- text[len(prefix):]
unfoldable pub after_prefix : String → String → String
after_prefix String.[] s = s
after_prefix (String.◌∷◌ p ps) String.[] = ""
after_prefix (String.◌∷◌ p ps) (String.◌∷◌ c cs) = after_prefix ps cs

-- text.removeprefix(prefix): a text that does not begin with the whole prefix stays as it is.
unfoldable pub remove_prefix : String → String → String
unfolding after_prefix
remove_prefix prefix s = if starts_with (codes s) (codes prefix) then after_prefix prefix s else s

-- `expected` is the token of the settings; the header may be absent.
unfoldable pub require_admin_token : String → Option String → Result (Unit {0})
unfolding strip remove_prefix
require_admin_token expected none = raise_with http_error "Invalid admin token."
require_admin_token expected (some authorization) =
    if str_eq authorization ""
    then raise_with http_error "Invalid admin token."
    else if str_eq (strip (remove_prefix "Bearer " authorization)) expected
    then ok tt
    else raise_with http_error "Invalid admin token."
