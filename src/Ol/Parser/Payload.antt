-- ===== src/Ol/Parser/Payload.antt =====
-- json.Unmarshal into the structs of internal/ol/parser.go.
use relentless_bookworm.Base.{Option, some, List, [], Bytes, codes, map}
use relentless_bookworm.Json.{
  Json, null, truth, number, string, array, object, Fields, no_field, field, members_of, values,
  assign, ◌>>=◌, read_text, read_slice, read_map,
}
use relentless_bookworm.Json.Valid.{Codec}
use relentless_bookworm.Json.Any.{any_value}
use relentless_bookworm.Models.{AuthorLink}
use relentless_bookworm.Models.Decode.{
  text, texts, ints, read_texts, read_element, decode_link, unmarshal,
}
use relentless_bookworm.Models.Search.{read_key, decode_search}
use relentless_bookworm.Ol.Parser.{
  JsonValue, Members, no_member, member, other, Decoder, EditionPayload, WorkPayload, AuthorPayload,
}

-- A value of type `any`, of which the parser looks at texts and objects.
unfoldable mutual
  pub value_of : Json → JsonValue
  value_of null = other
  value_of (truth b) = other
  value_of (number m) = other
  value_of (string s) = JsonValue.text s
  value_of (array vs) = other
  value_of (object fs) = JsonValue.object (members fs)

  pub members : Fields → Members
  members no_field = no_member
  members (field k v fs) = member k (value_of v) (members fs)

-- A field of type `any`; in an object the last member of a name counts.
abbrev pub read_any : JsonValue → Json → Option JsonValue
read_any old v = some (value_of (any_value (λ m. m) v))

-- authorRef: a struct `author` with its key
unfoldable read_author : Bytes → Json → Option Bytes
unfolding assign values
read_author old v = members_of v >>= λ fs. assign read_text old (values fs (codes "key"))

unfoldable pub read_author_ref : Json → Option Bytes
unfolding read_author
read_author_ref v = members_of v >>= λ fs. assign read_author [] (values fs (codes "author"))

abbrev pub pair_of : AuthorLink → Bytes × Bytes
pair_of l = (l.title, l.url)

module _ (g : Bytes → List Json) where
  -- []keyRef
  unfoldable pub keys : Bytes → Option (List Bytes)
  unfolding assign read_key
  keys k = assign (read_slice read_key) [] (g k)

  unfoldable pub edition_from : Option EditionPayload
  unfolding text texts ints keys
  edition_from = do
    key ← text g (codes "key")
    title ← text g (codes "title")
    full_title ← text g (codes "full_title")
    authors ← keys (codes "authors")
    works ← keys (codes "works")
    subjects ← texts g (codes "subjects")
    publishers ← texts g (codes "publishers")
    publish_date ← text g (codes "publish_date")
    languages ← keys (codes "languages")
    identifiers ← assign (read_map (read_texts [])) [] (g (codes "identifiers"))
    covers ← ints g (codes "covers")
    some (record {
      key = key;
      title = title;
      full_title = full_title;
      authors = authors;
      works = works;
      subjects = subjects;
      publishers = publishers;
      publish_date = publish_date;
      languages = languages;
      identifiers = identifiers;
      covers = covers;
    })

  unfoldable pub work_payload_from : Option WorkPayload
  unfolding text texts ints read_author_ref value_of
  work_payload_from = do
    key ← text g (codes "key")
    title ← text g (codes "title")
    authors ← assign (read_slice read_author_ref) [] (g (codes "authors"))
    subjects ← texts g (codes "subjects")
    subject_people ← texts g (codes "subject_people")
    subject_times ← texts g (codes "subject_times")
    description ← assign read_any other (g (codes "description"))
    covers ← ints g (codes "covers")
    some (record {
      key = key;
      title = title;
      authors = authors;
      subjects = subjects;
      subject_people = subject_people;
      subject_times = subject_times;
      description = description;
      covers = covers;
    })

  unfoldable pub author_payload_from : Option AuthorPayload
  unfolding text texts ints value_of decode_link
  author_payload_from = do
    key ← text g (codes "key")
    name ← text g (codes "name")
    personal_name ← text g (codes "personal_name")
    bio ← assign read_any other (g (codes "bio"))
    alternate_names ← texts g (codes "alternate_names")
    photos ← ints g (codes "photos")
    remote_ids ← assign (read_map read_element) [] (g (codes "remote_ids"))
    links ← assign (read_slice decode_link) [] (g (codes "links"))
    some (record {
      key = key;
      name = name;
      personal_name = personal_name;
      bio = bio;
      alternate_names = alternate_names;
      photos = photos;
      remote_ids = remote_ids;
      links = map pair_of links;
    })

  -- The envelope: a struct `type` with its key
  unfoldable pub envelope_from : Option Bytes
  unfolding read_author
  envelope_from = assign read_author [] (g (codes "type"))

-- json.Unmarshal into a struct that is read by its members
abbrev pub into {ℓ} : {A : Type ℓ} → ((Bytes → List Json) → Option A) → Json → Option A
into from_ v = members_of v >>= λ fs. from_ (values fs)

-- The parser with encoding/json.
abbrev pub decoder : Codec → Decoder
decoder c = record {
  edition = unmarshal c (into edition_from);
  work_payload = unmarshal c (into work_payload_from);
  author_payload = unmarshal c (into author_payload_from);
  envelope = unmarshal c (into envelope_from);
  search = unmarshal c decode_search;
}
