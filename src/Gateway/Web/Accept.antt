-- ===== src/Gateway/Web/Accept.antt =====
-- `ParseAcceptHeader` and `GetQualityParam` of BLEGatewayApplication/HTTP_HELPER.cpp. `none` is a
-- loop that does not end.
use io_tblegateway.Common.{
  ◌||◌, ℕ, Bool, true, false, not, ◌&&◌, Option, none, some, List, [], ◌∷◌, ◌++◌, leb, ◌==◌,
  if◌then◌else◌, Bytes,
}
use io_tblegateway.Gateway.Text.{Found, find, construct_substrings}
use io_tblegateway.Gateway.Web.Params.{text, iequals, to_string, Params, set}
use io_tblegateway.Gateway.Web.Keys.{
  command_key, http_body_string, http_code, accepted_mime, cmd_error, http_406_not_acc,
  html_content_type, json_content_type, textwc_content_type, appwc_content_type, wcwc_content_type,
}

-- The type `float` with the operations that are used. `stof` gives `none` if it throws.
pub record Floats : Type 1 where
  pub F : Type 0
  pub zero_point_zero : F
  pub one_point_zero : F
  pub at_least : F → F → Bool
  pub equal : F → F → Bool
  pub stof : Bytes → Option F

-- `boost::algorithm::contains`
abbrev pub is_found : Found → Bool
is_found none = false
is_found (some p) = true

abbrev pub contains : Bytes → Bytes → Bool
contains str part = is_found (find part str)

module _ (fl : Floats) where
  abbrev pub stof_or_one : Option fl.F → fl.F
  stof_or_one none = fl.one_point_zero
  stof_or_one (some q) = q

  abbrev pub value_of : List Bytes → fl.F
  value_of (name ∷ value ∷ []) = stof_or_one (fl.stof value)
  value_of _ = fl.one_point_zero

  -- the loop returns at the first part with a "q"
  unfoldable pub quality_of : List Bytes → Option fl.F
  unfolding text
  quality_of [] = some fl.one_point_zero
  quality_of (s ∷ parameters) =
      let rest = quality_of parameters in
      if contains s (text "q")
      then elim (construct_substrings s (b'=' ∷ [])) [
        | none ↦ none
        | some pvalues ↦ some (value_of pvalues)
      ]
      else rest

  unfoldable pub get_quality_param : Bytes → Option fl.F
  unfolding quality_of
  get_quality_param str = elim (construct_substrings str (b',' ∷ [])) [
    | none ↦ none
    | some parameters ↦ quality_of parameters
  ]

  -- a type with its quality, and how specific it is
  abbrev pub Preference : Type 0
  Preference = Bytes × fl.F × ℕ

  abbrev pub Ranked : Type 0
  Ranked = ℕ × List Preference

  abbrev pub push : Bytes → ℕ → ℕ → Ranked → fl.F → Ranked
  push type level most r q = (most, r.1 ++ (type, q, level) ∷ [])

  -- one round of the loop over the media types, with the quality
  abbrev pub rank : Bytes → Ranked → fl.F → Ranked
  rank s r q =
      if contains s html_content_type
      then push html_content_type 2 2 r q
      else if contains s json_content_type
      then push json_content_type 2 2 r q
      else if contains s appwc_content_type
      then if leb r.0 1 then push appwc_content_type 1 1 r q else r
      else if contains s textwc_content_type
      then if leb r.0 1 then push textwc_content_type 1 1 r q else r
      else if contains s wcwc_content_type
      then if r.0 == 0 then push textwc_content_type 0 0 r q else r
      else r

  unfoldable pub rank_all : List Bytes → Ranked → Option Ranked
  unfolding text get_quality_param
  rank_all [] r = some r
  rank_all (s ∷ media_types) r = elim (get_quality_param s) [
    | none ↦ none
    | some q ↦ rank_all media_types (rank s r q)
  ]

  abbrev prefers_text : Bytes → Bool
  prefers_text chosen = iequals chosen html_content_type || iequals chosen textwc_content_type

  -- The loop over the preferences: the greatest quality so far and its type.
  unfoldable pub choose : ℕ → List Preference → fl.F → Bytes → Bytes
  unfolding text iequals
  choose most [] maxq chosen = chosen
  choose most (t ∷ ts) maxq chosen =
      let keep = choose most ts maxq chosen in
      let take_it = choose most ts t.1 t.0 in
      if t.2 == most && fl.at_least t.1 maxq
      then if not (prefers_text chosen && fl.equal t.1 maxq) then take_it else keep
      else keep

  unfoldable pub chosen_type : Ranked → Params → Params
  unfolding text choose
  chosen_type (most, []) result =
      set http_body_string (text "Invalid/Not supported Accept Header")
        (set http_code (to_string http_406_not_acc) (set command_key (to_string cmd_error) result))
  chosen_type (most, t ∷ ts) result =
      set accepted_mime (choose most (t ∷ ts) fl.zero_point_zero []) result

  unfoldable pub parse_accept_header : Bytes → Params → Option Params
  unfolding text rank_all chosen_type
  parse_accept_header [] result = some (set accepted_mime html_content_type result)
  parse_accept_header (ch ∷ accept) result = elim (construct_substrings (ch ∷ accept) (b',' ∷ [])) [
    | none ↦ none
    | some media_types ↦ elim (rank_all media_types (0, [])) [
      | none ↦ none
      | some r ↦ some (chosen_type r result)
    ]
  ]
