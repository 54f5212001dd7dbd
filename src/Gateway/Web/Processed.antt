-- ===== src/Gateway/Web/Processed.antt =====
-- Every request with a path gets a command from BLEGatewayApplication/HTTP_HELPER.cpp.
use io_tblegateway.Common.{
  subst, ℕ, ◌≡◌, refl, sym, inl, inr, Option, none, some, List, [], ◌∷◌, ◌++◌, ◌==◌, Bool-cases,
  Bytes,
}
use io_tblegateway.Gateway.Text.{stoi_digits}
use io_tblegateway.Gateway.Text.Split.{fields, construct_substrings-fields}
use io_tblegateway.Gateway.Web.Params.{text, ◌>>=◌, Params, get}
use io_tblegateway.Gateway.Web.Query.{put_values, put_parameters, parse_query_string}
use io_tblegateway.Gateway.Web.Accept.{
  Floats, value_of, quality_of, get_quality_param, contains, Ranked, rank, rank_all, chosen_type,
  parse_accept_header,
}
use io_tblegateway.Gateway.Web.Request.{Request, first_part, parse_path, process_http_request}
use io_tblegateway.Gateway.Web.Ready.{Ready, ReadyIn, split-Done, parse_uri-Ready}

put_parameters-Done :
    (parameters : List Bytes) (result : Params)
    → (r : Params) × (put_parameters parameters result ≡ some r)
unfolding put_parameters
put_parameters-Done [] result = (result, refl)
put_parameters-Done (p ∷ parameters) result =
    let values = split-Done p b'=' in
    let rest = put_parameters-Done parameters (put_values values.0 result) in
    (rest.0, rw (values.1, put_parameters) rest.1)

query-Done :
    (query_string : Bytes) (result : Params)
    → (r : Params) × (parse_query_string query_string result ≡ some r)
unfolding parse_query_string
query-Done query_string result =
    let parameters = split-Done query_string b'&' in
    let rest = put_parameters-Done parameters.0 result in
    (rest.0, rw (parameters.1, parse_query_string) rest.1)

-- A text that starts with another byte than the delimiter has a first part.
first_field :
    (d ch : ℕ) (cur str : Bytes)
    → (part : Bytes) × (parts : List Bytes) × (fields d (ch ∷ cur) str ≡ part ∷ parts)
unfolding fields
first_field d ch cur [] = (ch ∷ cur, [], refl)
first_field d ch cur (x ∷ str) = elim (Bool-cases (d == x)) [
  | inl e ↦ rw e (ch ∷ cur, fields d [] str, refl)
  | inr e ↦ rw e (first_field d ch (cur ++ x ∷ []) str)
]

Ready-bind :
    (o : Option Params) (f : Params → Option Params)
    → ReadyIn o
    → ((ps : Params) → Ready ps → ReadyIn (f ps))
    → ReadyIn (o >>= f)
Ready-bind none f h k = elim h [ ]
Ready-bind (some ps) f h k = k ps h

path-Ready :
    (str query request_method : Bytes) (result : Params)
    → ReadyIn (parse_path (b'/' ∷ str) query request_method result)
unfolding parse_path fields
path-Ready str [] request_method result = parse_uri-Ready (b'/' ∷ str) request_method result
path-Ready str (ch ∷ query) request_method result =
    let r = query-Done (ch ∷ query) result in
    let f = first_field b'?' b'/' [] str in
    rw (r.1, construct_substrings-fields (b'/' ∷ str) b'?', ReadyIn)
      (subst (λ o. ReadyIn (first_part o request_method r.0)) (sym f.2)
        (parse_uri-Ready f.0 request_method r.0))

module _ (fl : Floats) where
  quality_of-Done : (parameters : List Bytes) → (q : fl.F) × (quality_of fl parameters ≡ some q)
  unfolding text quality_of
  quality_of-Done [] = (fl.one_point_zero, refl)
  quality_of-Done (s ∷ parameters) = elim (Bool-cases (contains s (text "q"))) [
    | inl e ↦ let r = split-Done s b'=' in (value_of fl r.0, rw (e, r.1) refl)
    | inr e ↦ let r = quality_of-Done parameters in (r.0, rw e r.1)
  ]

  quality-Done : (str : Bytes) → (q : fl.F) × (get_quality_param fl str ≡ some q)
  unfolding get_quality_param
  quality-Done str =
      let parts = split-Done str b',' in
      let r = quality_of-Done parts.0 in (r.0, rw (parts.1, get_quality_param) r.1)

  rank_all-Done :
      (media_types : List Bytes) (r : Ranked fl)
      → (ranked : Ranked fl) × (rank_all fl media_types r ≡ some ranked)
  unfolding rank_all
  rank_all-Done [] r = (r, refl)
  rank_all-Done (s ∷ media_types) r =
      let q = quality-Done s in
      let rest = rank_all-Done media_types (rank fl s r q.0) in (rest.0, rw (q.1, rank_all) rest.1)

  chosen-Ready : (r : Ranked fl) (ps : Params) → Ready ps → Ready (chosen_type fl r ps)
  unfolding text get stoi_digits chosen_type
  chosen-Ready (most, []) ps h = (9, refl, λ f. (19, refl))
  chosen-Ready (most, t ∷ ts) ps h = h

  accept-Ready :
      (accept : Bytes) (ps : Params) → Ready ps → ReadyIn (parse_accept_header fl accept ps)
  unfolding text get parse_accept_header
  accept-Ready [] ps h = h
  accept-Ready (ch ∷ accept) ps h =
      let parts = split-Done (ch ∷ accept) b',' in
      let r = rank_all-Done parts.0 (0, []) in rw (parts.1, r.1, ReadyIn) (chosen-Ready r.0 ps h)

  -- A request whose path starts with a slash gets a command, with a status code if it needs no driver.
  -- No header and no query makes the parsing throw.
  pub process-Ready :
      (wr : Request) (str : Bytes)
      → wr.request_uri ≡ b'/' ∷ str
      → ReadyIn (process_http_request fl wr [])
  unfolding process_http_request
  process-Ready wr str e =
      rw (e, ReadyIn)
        (Ready-bind (parse_path (b'/' ∷ str) wr.query_string wr.request_method [])
          (parse_accept_header fl wr.http_accept)
          (path-Ready str wr.query_string wr.request_method []) (accept-Ready wr.http_accept))
