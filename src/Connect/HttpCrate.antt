-- ===== src/Connect/HttpCrate.antt =====
-- The crate `http`, as far as connect.rs uses it: a parameter.
use webtransport_rs.Base.{Bool, Option, Outcome}
use webtransport_rs.Qpack.Text.{Bytes}

pub record Http : Type 1 where
  pub Scheme : Type 0
  pub Authority : Type 0
  pub PathAndQuery : Type 0
  pub Uri : Type 0
  pub Method : Type 0
  pub StatusCode : Type 0
  pub InvalidMethod : Type 0
  pub InvalidUri : Type 0
  pub InvalidUriParts : Type 0
  pub InvalidStatusCode : Type 0
  -- The conversions from texts.
  pub to_scheme : Bytes → Outcome InvalidUri Scheme
  pub to_authority : Bytes → Outcome InvalidUri Authority
  pub to_path_and_query : Bytes → Outcome InvalidUri PathAndQuery
  pub to_method : Bytes → Outcome InvalidMethod Method
  pub to_status : Bytes → Outcome InvalidStatusCode StatusCode
  pub from_parts :
      Option Scheme → Option Authority → Option PathAndQuery → Outcome InvalidUriParts Uri
  -- The parts of a `Uri`, as values and as texts.
  pub scheme : Uri → Option Scheme
  pub authority : Uri → Option Authority
  pub path : Uri → Bytes
  pub scheme_as_str : Scheme → Bytes
  pub authority_as_str : Authority → Bytes
  -- The comparisons with `Scheme::HTTPS`, `Method::CONNECT` and `StatusCode::OK`.
  pub is_https : Scheme → Bool
  pub is_connect : Method → Bool
  pub is_ok : StatusCode → Bool
  pub is_success : StatusCode → Bool
  pub status_as_str : StatusCode → Bytes
