-- ===== src/Models/Decode.antt =====
-- json.Unmarshal into the models, from the values that each name has. Depths are natural numbers in
-- this library, so a negative one, which the program never writes, is refused.
use relentless_bookworm.Base.{ℕ, ℤ, pos, negsuc, Option, none, some, List, [], Bytes, codes}
use relentless_bookworm.Json.{
  Json, members_of, values, assign, ◌>>=◌, read_text, read_int, read_slice, read_map,
}
use relentless_bookworm.Json.Valid.{Codec}
use relentless_bookworm.Models.{
  CrawlJob, CrawlStatus, Edge, BookNode, WorkNode, AuthorNode, AuthorLink,
}

abbrev pub read_element : Json → Option Bytes
read_element = read_text []

abbrev pub read_number : Json → Option ℤ
read_number = read_int (pos 0)

abbrev pub read_texts : List Bytes → Json → Option (List Bytes)
read_texts = read_slice read_element

abbrev pub read_ints : List ℤ → Json → Option (List ℤ)
read_ints = read_slice read_number

abbrev natural : ℤ → Option ℕ
natural (pos n) = some n
natural (negsuc n) = none

module _ (g : Bytes → List Json) where
  unfoldable pub text : Bytes → Option Bytes
  unfolding assign
  text k = assign read_text [] (g k)

  unfoldable pub texts : Bytes → Option (List Bytes)
  unfolding assign
  texts k = assign read_texts [] (g k)

  unfoldable pub ints : Bytes → Option (List ℤ)
  unfolding assign
  ints k = assign read_ints [] (g k)

  unfoldable depth_of : Bytes → Option ℕ
  unfolding assign
  depth_of k = assign read_int (pos 0) (g k) >>= natural

  unfoldable pub edge_from : Option Edge
  unfolding text
  edge_from = do
    session_id ← text (codes "session_id")
    from ← text (codes "from")
    to ← text (codes "to")
    relation ← text (codes "relation")
    some (record { session_id = session_id; from = from; to = to; relation = relation })

  unfoldable pub book_from : Option BookNode
  unfolding text texts ints assign
  book_from = do
    key ← text (codes "key")
    title ← text (codes "title")
    full_title ← text (codes "full_title")
    authors ← texts (codes "authors")
    works ← texts (codes "works")
    subjects ← texts (codes "subjects")
    publishers ← texts (codes "publishers")
    publish_date ← text (codes "publish_date")
    languages ← texts (codes "languages")
    identifiers ← assign (read_map (read_texts [])) [] (g (codes "identifiers"))
    covers ← ints (codes "covers")
    some (record {
      key = key;
      title = title;
      full_title = full_title;
      authors = authors;
      works = works;
      subjects = subjects;
      publishers = publishers;
      publish_date = publish_date;
      languages = languages;
      identifiers = identifiers;
      covers = covers;
      raw_json = [];
    })

  unfoldable pub work_from : Option WorkNode
  unfolding text texts ints
  work_from = do
    key ← text (codes "key")
    title ← text (codes "title")
    authors ← texts (codes "authors")
    subjects ← texts (codes "subjects")
    subject_people ← texts (codes "subject_people")
    subject_times ← texts (codes "subject_times")
    description ← text (codes "description")
    covers ← ints (codes "covers")
    some (record {
      key = key;
      title = title;
      authors = authors;
      subjects = subjects;
      subject_people = subject_people;
      subject_times = subject_times;
      description = description;
      covers = covers;
      raw_json = [];
    })

  unfoldable link_from : Option AuthorLink
  unfolding text
  link_from = do
    title ← text (codes "title")
    url ← text (codes "url")
    some (record { title = title; url = url })

unfoldable pub decode_link : Json → Option AuthorLink
unfolding link_from
decode_link v = members_of v >>= λ fs. link_from (values fs)

unfoldable pub author_from : (Bytes → List Json) → Option AuthorNode
unfolding text texts ints assign decode_link
author_from g = do
  key ← text g (codes "key")
  name ← text g (codes "name")
  personal_name ← text g (codes "personal_name")
  bio ← text g (codes "bio")
  alternate_names ← texts g (codes "alternate_names")
  photos ← ints g (codes "photos")
  remote_ids ← assign (read_map read_element) [] (g (codes "remote_ids"))
  links ← assign (read_slice decode_link) [] (g (codes "links"))
  some (record {
    key = key;
    name = name;
    personal_name = personal_name;
    bio = bio;
    alternate_names = alternate_names;
    photos = photos;
    remote_ids = remote_ids;
    links = links;
    raw_json = [];
  })

-- A struct is read from any value that holds its members.
unfoldable pub decode_edge : Json → Option Edge
unfolding edge_from values
decode_edge v = members_of v >>= λ fs. edge_from (values fs)

unfoldable pub decode_book : Json → Option BookNode
unfolding book_from values
decode_book v = members_of v >>= λ fs. book_from (values fs)

unfoldable pub decode_work : Json → Option WorkNode
unfolding work_from values
decode_work v = members_of v >>= λ fs. work_from (values fs)

unfoldable pub decode_author : Json → Option AuthorNode
unfolding author_from values
decode_author v = members_of v >>= λ fs. author_from (values fs)

module _ (c : Codec) where
  abbrev read_time : ℕ → Json → Option ℕ
  read_time old Json.null = some old
  read_time old (Json.string s) = c.read_time s
  read_time old (Json.truth b) = none
  read_time old (Json.number z) = none
  read_time old (Json.array vs) = none
  read_time old (Json.object fs) = none

  unfoldable pub job_from : (Bytes → List Json) → Option CrawlJob
  unfolding text depth_of assign
  job_from g = do
    session_id ← text g (codes "session_id")
    seed_url ← text g (codes "seed_url")
    url ← text g (codes "url")
    depth ← depth_of g (codes "depth")
    created_at ← assign read_time 0 (g (codes "created_at"))
    some (record {
      session_id = session_id;
      seed_url = seed_url;
      url = url;
      depth = depth;
      created_at = created_at;
    })

  unfoldable pub status_from : (Bytes → List Json) → Option CrawlStatus
  unfolding text assign
  status_from g = do
    session_id ← text g (codes "session_id")
    seed_url ← text g (codes "seed_url")
    status ← text g (codes "status")
    created_at ← assign read_time 0 (g (codes "created_at"))
    some (record {
      session_id = session_id;
      seed_url = seed_url;
      status = status;
      created_at = created_at;
    })

  unfoldable pub decode_job : Json → Option CrawlJob
  unfolding job_from values
  decode_job v = members_of v >>= λ fs. job_from (values fs)

  unfoldable pub decode_status : Json → Option CrawlStatus
  unfolding status_from values
  decode_status v = members_of v >>= λ fs. status_from (values fs)

-- json.Unmarshal
abbrev pub unmarshal {ℓ} : {A : Type ℓ} → Codec → (Json → Option A) → Bytes → Option A
unmarshal c read s = c.parse s >>= read
