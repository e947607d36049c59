-- ===== src/Ol/Client/Laws.antt =====
-- What the URL builders promise.
use mathlib.Core.List.{reverse-append}
use relentless_bookworm.Base.{◌≡◌, true, false, [], ◌∷◌, ◌++◌, Bytes, Bool-cases, inl, inr}
use relentless_bookworm.Text.{has_suffix, trim_right}
use relentless_bookworm.Text.Laws.{has_suffix-append}
use relentless_bookworm.Ol.Client.{dot_json, ensure_json_url}

-- The result ends in ".json", for every URL.
pub ensure_json_url-has_suffix : (url : Bytes) → has_suffix (ensure_json_url url) dot_json ≡ true
unfolding ensure_json_url
ensure_json_url-has_suffix url = elim (Bool-cases (has_suffix url dot_json)) [
  | inl e ↦ rw e e
  | inr e ↦ rw e (has_suffix-append (trim_right url b'/') dot_json)
]

pub ensure_json_url_idem :
    (url : Bytes) → ensure_json_url (ensure_json_url url) ≡ ensure_json_url url
ensure_json_url_idem url = let e = ensure_json_url-has_suffix url in unfold ensure_json_url in rw e

trim_right-slash : (url : Bytes) → trim_right (url ++ b'/' ∷ []) b'/' ≡ trim_right url b'/'
unfolding trim_right
trim_right-slash url = rw reverse-append

not_json : (url : Bytes) → has_suffix (url ++ b'/' ∷ []) dot_json ≡ false
unfolding has_suffix
not_json url = rw reverse-append

-- A URL that does not end in ".json" is brought to one form with and without a slash at its end;
-- the form ends in ".json", and is kept when it is brought to its form again.
pub ensure_json_url_canonical :
    (url : Bytes)
    → has_suffix url dot_json ≡ false
    → (ensure_json_url (url ++ b'/' ∷ []) ≡ ensure_json_url url)
      × (has_suffix (ensure_json_url url) dot_json ≡ true)
      × (ensure_json_url (ensure_json_url url) ≡ ensure_json_url url)
ensure_json_url_canonical url h = (
  unfold ensure_json_url in rw (not_json, h, trim_right-slash),
  ensure_json_url-has_suffix url,
  ensure_json_url_idem url,
)
