-- ===== src/Models.antt =====
-- internal/models: what the services exchange. A `time.Time` is a number. The JSON of these values is
-- in the children Encode and Decode; a field marked `json:"-"` is kept only inside one service.
pub mod Encode
pub mod Decode
pub mod Lists
pub mod Maps
pub mod RoundTrip
pub mod Nodes
pub mod Search
use relentless_bookworm.Base.{Bool, Option, ℤ, ℕ, List, Bytes}

pub record CrawlJob : Type 0 where
  pub session_id : Bytes
  pub seed_url : Bytes
  pub url : Bytes
  pub depth : ℕ
  pub created_at : ℕ

pub record CrawlStatus : Type 0 where
  pub session_id : Bytes
  pub seed_url : Bytes
  pub status : Bytes
  pub created_at : ℕ

pub record Edge : Type 0 where
  pub session_id : Bytes
  pub from : Bytes
  pub to : Bytes
  pub relation : Bytes

pub record BookNode : Type 0 where
  pub key : Bytes
  pub title : Bytes
  pub full_title : Bytes
  pub authors : List Bytes
  pub works : List Bytes
  pub subjects : List Bytes
  pub publishers : List Bytes
  pub publish_date : Bytes
  pub languages : List Bytes
  pub identifiers : List (Bytes × List Bytes)
  pub covers : List ℤ
  pub raw_json : Bytes

pub record WorkNode : Type 0 where
  pub key : Bytes
  pub title : Bytes
  pub authors : List Bytes
  pub subjects : List Bytes
  pub subject_people : List Bytes
  pub subject_times : List Bytes
  pub description : Bytes
  pub covers : List ℤ
  pub raw_json : Bytes

pub record AuthorLink : Type 0 where
  pub title : Bytes
  pub url : Bytes

pub record AuthorNode : Type 0 where
  pub key : Bytes
  pub name : Bytes
  pub personal_name : Bytes
  pub bio : Bytes
  pub alternate_names : List Bytes
  pub photos : List ℤ
  pub remote_ids : List (Bytes × Bytes)
  pub links : List AuthorLink
  pub raw_json : Bytes

-- The interface Node, by the types that implement it.
pub data Node : Type 0 where
  book : BookNode → Node
  work : WorkNode → Node
  author : AuthorNode → Node

pub data NodeType : Type 0 where
  edition_type work_type author_type : NodeType

unfoldable pub node_type : Node → NodeType
node_type (book n) = edition_type
node_type (work n) = work_type
node_type (author n) = author_type

unfoldable pub node_id : Node → Bytes
node_id (book n) = n.key
node_id (work n) = n.key
node_id (author n) = n.key

pub record CrawlResult : Type 0 where
  pub session_id : Bytes
  pub url : Bytes
  pub node_type : NodeType
  pub node : Node

-- NewCrawlResult, before the value is marshalled
unfoldable pub new_crawl_result : CrawlJob → Node → CrawlResult
new_crawl_result job n = record {
  session_id = job.session_id;
  url = job.url;
  node_type = node_type n;
  node = n;
}

-- What goes to the dead letter topic, but for the text of the error.
pub record CrawlFailure : Type 0 where
  pub session_id : Bytes
  pub seed_url : Bytes
  pub url : Bytes
  pub depth : ℕ
  pub failed_at : ℕ

-- A document of a search; of its editions, the keys.
pub record SearchDoc : Type 0 where
  pub key : Bytes
  pub title : Bytes
  pub author_key : List Bytes
  pub author_name : List Bytes
  pub cover_edition_key : Bytes
  pub cover_i : ℤ
  pub ebook_access : Bytes
  pub edition_count : ℤ
  pub first_publish_year : ℤ
  pub has_fulltext : Bool
  pub ia : List Bytes
  pub ia_collection : List Bytes
  pub language : List Bytes
  pub lending_edition : Bytes
  pub lending_identifier : Bytes
  pub public_scan_b : Bool
  pub id_standard_ebooks : List Bytes
  pub editions : List Bytes

pub record SearchResponse : Type 0 where
  pub num_found : ℤ
  pub num_found_exact : Bool
  pub num_found_alt : ℤ
  pub start : ℤ
  pub q : Bytes
  pub offset : Option ℤ
  pub documentation_url : Bytes
  pub docs : List SearchDoc
