-- ===== src/Recorder/Sanitize/Examples.antt =====
-- Concrete values, texts and URLs that a recording keeps: crates/agentplug-host/src/action_recorder.rs.
use agentplug.Base.{◌≡◌, refl, true, [], ◌∷◌, some}
use agentplug.Base.Bytes.{Bytes, bytes}
use agentplug.Verbs.Json.{Value, text, number, array, object, nil, cons, end, field}
use agentplug.Recorder.Sanitize.{
  redacted, is_secret, is_char_boundary, redact_value, truncate, sanitize_recorded_url,
}
use agentplug.Recorder.Sanitize.Redaction.{is_clean, redact_value-is_clean}
use agentplug.Recorder.Sanitize.Urls.{Url, IsUrl, print_url, hidden}
use agentplug.Recorder.Sanitize.Urls.Redacted.{sanitize_recorded_url-print_url}

-- A request body with a password inside a list.
abbrev login : Value
login = object (
    field "items" (array (cons (object (field "Password" (text "hunter2") end)) nil))
      (field "page" (number "3" (some 3)) end))

login_without_password :
    redact_value login
    ≡ object (
        field "items"
          (array (cons (object (field "Password" (text redacted) end)) nil))
          (field "page" (number "3" (some 3)) end))
unfolding redact_value is_secret
login_without_password = refl

redact_value-is_clean_example :
    (is_clean (redact_value login) ≡ true)
    × (redact_value (redact_value login) ≡ redact_value login)
redact_value-is_clean_example = redact_value-is_clean login

-- A cut at 2 would fall inside the two bytes of the second character.
abbrev accented : Bytes
accented = b'a' ∷ 195 ∷ 169 ∷ b'b' ∷ []

accented_cut : truncate accented 2 ≡ b'a' ∷ []
unfolding truncate is_char_boundary
accented_cut = refl

abbrev secret_url : Url
secret_url = record {
  scheme = bytes "https";
  user = some (bytes "me");
  host = bytes "a.io";
  path = bytes "x";
  params = (bytes "token", bytes "s3") ∷ [];
  fragment = some (bytes "top");
}

secret_url-IsUrl : IsUrl secret_url
secret_url-IsUrl = record {
  scheme_plain = (refl, tt);
  user_plain = (refl, (refl, (refl, tt)));
  host_plain = (refl, (refl, (refl, (refl, tt))));
  path_plain = (refl, (refl, tt));
  params_plain = (((refl, (refl, (refl, tt))), (refl, (refl, tt))), tt);
}

sanitize_recorded_url-print_url_example :
    sanitize_recorded_url (print_url secret_url) ≡ print_url (hidden secret_url)
sanitize_recorded_url-print_url_example =
    sanitize_recorded_url-print_url secret_url secret_url-IsUrl
