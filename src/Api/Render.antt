-- ===== src/Api/Render.antt =====
-- Responses made of what the Mashery V3 API returned: the rendering steps of
-- mashery/transformers_v3.go.
use hcvault_mashery_api_auth.Prelude.{
  ℕ, ◌+◌, ℤ, pos, negsuc, ltb_ℤ, String, ◌||◌, Option, none, some, List, [], ◌∷◌, ◌++◌, ◌==◌, ltb,
  if◌then◌else◌, length,
}
use package.text.Mathlib.Text.{starts_with}
use hcvault_mashery_api_auth.Value.{
  Value, null, text, texts, number, octets, object, array, Values, nil, cons, Fields, end, field,
  lookup, Err, external, Result, good, bad, Blob, document, raw, json, Response, answer, Arg,
  arg_number, arg_error,
}
use hcvault_mashery_api_auth.Exec.{pure, stop, lift, deref, ◌>>=◌}
use hcvault_mashery_api_auth.Env.{Env, Headers, HttpResponse, header_get}
use hcvault_mashery_api_auth.Plugin.{insert}
use hcvault_mashery_api_auth.Request.{Step, get_heap}
use hcvault_mashery_api_auth.Api.{ApiContainer}

abbrev pub Warning : Type 0
Warning = String × List Arg

-- `m[key] = v` on the data of a response.
abbrev pub put_field : String → Value → Fields → Fields
put_field key v end = field key v end
put_field key v (field k w rest) =
    if k == key then field key v rest else field k w (put_field key v rest)

-- `json.Unmarshal` into a `[]map[string]interface{}`: an element is an object, or `null` for a nil
-- map, which has no keys. A `null` document is the nil slice.
abbrev pub to_objects : Values → Option (List Fields)
to_objects nil = some []
to_objects (cons (object f) rest) = elim (to_objects rest) [ none ↦ none | some fs ↦ some (f ∷ fs) ]
to_objects (cons null rest) = elim (to_objects rest) [ none ↦ none | some fs ↦ some (end ∷ fs) ]
to_objects (cons _ rest) = none

unfoldable pub parse_objects : Blob → Result (Option (List Fields))
parse_objects (document null) = good none
parse_objects (document (array vs)) = elim (to_objects vs) [
  | none ↦ bad (external "json")
  | some fs ↦ good (some fs)
]
parse_objects _ = bad (external "json")

-- `json.Unmarshal` into an empty `map[string]interface{}`.
unfoldable pub parse_object : Blob → Result Fields
parse_object (json f) = good f
parse_object (document null) = good end
parse_object _ = bad (external "json")

-- `parsedJson[k]["id"]`, which is nil where the key is absent and where it has `null`.
abbrev pub not_nil : Option Value → Option Value
not_nil (some null) = none
not_nil o = o

abbrev pub id_of : Fields → Option Value
id_of f = not_nil (lookup "id" f)

-- The result of the loop of `renderV3ListResponse` over the parsed objects.
pub record Listing : Type 0 where
  pub ids : List String
  pub ids_info : Fields
  pub unidentified : ℕ

module _ (env : Env) where
  unfoldable pub list_objects : List Fields → Listing → Listing
  list_objects [] acc = acc
  list_objects (f ∷ rest) acc = list_objects rest (elim (id_of f) [
    | some v ↦ record {
      ids = acc.ids ++ env.show_value v ∷ [];
      ids_info = put_field (env.show_value v) (object f) acc.ids_info;
      unidentified = acc.unidentified;
    }
    | none ↦ record acc { unidentified = acc.unidentified + 1 }
  ])

  unfoldable pub check_need_count_warning : HttpResponse → ℕ → List Warning → List Warning
  check_need_count_warning resp count warnings =
      let header = header_get "X-Total-Count" resp.header in
      if header == "" then warnings else elim (env.read_number header) [
        | none ↦ warnings
        | some total ↦
            if ltb_ℤ (pos count) total
            then warnings
              ++ (
                "there are total %d objects while only %d are returned",
                arg_number total ∷ arg_number (pos count) ∷ [],
              )
                ∷ []
            else warnings
      ]

  -- `logical.ListResponseWithInfo`: an empty list or map is left out.
  abbrev pub list_data : Listing → Fields
  list_data l = elim l.ids [
    | [] ↦ end
    | _ ∷ _ ↦ field "keys" (texts l.ids) (field "key_info" (object l.ids_info) end)
  ]

  abbrev pub unidentified_warning : ℕ → List Warning
  unidentified_warning n =
      if ltb 0 n
      then ("there were %d unidentified objects in this response", arg_number (pos n) ∷ []) ∷ []
      else []

  abbrev pub empty_listing : Listing
  empty_listing = record { ids = []; ids_info = end; unidentified = 0 }

  -- The response for the parsed body; `none` is the nil slice.
  unfoldable pub list_response : HttpResponse → Blob → Option (List Fields) → Response
  unfolding list_objects check_need_count_warning
  list_response resp body none = answer (record {
    body = field "unparsed_body" (text (env.show_blob body)) end;
    lease = none;
    warnings = [];
    headers = [];
  })
  list_response resp body (some objects) =
      let listing = list_objects objects empty_listing in
      answer (record {
        body = list_data listing;
        lease = none;
        warnings =
            check_need_count_warning resp (length objects) []
            ++ unidentified_warning listing.unidentified;
        headers = [];
      })

  -- `identify`: the text of the `id`, and the object without it.
  abbrev pub without_id : Fields → Fields
  without_id end = end
  without_id (field k v rest) = if k == "id" then without_id rest else field k v (without_id rest)

  unfoldable pub identify : Fields → String × Value
  identify f = elim (lookup "id" f) [
    | none ↦ ("", null)
    | some v ↦ elim v [ text key ↦ (key, object (without_id f)) | _ ↦ ("", null) ]
  ]

  unfoldable pub identified_objects : List Fields → Fields → Fields
  unfolding identify
  identified_objects [] acc = acc
  identified_objects (f ∷ rest) acc =
      let (key, desc) = identify f in
      identified_objects rest (if key == "" then acc else put_field key desc acc)

  -- The response with the body as it came, and what was wrong with it.
  abbrev pub unparsed : Blob → Err → String → Response
  unparsed body err hint = answer (record {
    body = field "unparsed_body" (text (env.show_blob body)) end;
    lease = none;
    warnings = ("%s", arg_error err ∷ []) ∷ (hint, []) ∷ [];
    headers = [];
  })

  abbrev objects_of : Option (List Fields) → List Fields
  objects_of none = []
  objects_of (some fs) = fs

  unfoldable pub array_response : HttpResponse → Blob → Response
  unfolding identified_objects check_need_count_warning parse_objects
  array_response resp body = elim (parse_objects body) [
    | bad err ↦ unparsed body err "returned data structure does not match array"
    | good fs ↦ answer (record {
      body = identified_objects (objects_of fs) end;
      lease = none;
      warnings = check_need_count_warning resp (length (objects_of fs)) [];
      headers = [];
    })
  ]

  unfoldable pub single_object_response : Blob → Response
  unfolding parse_object
  single_object_response body = elim (parse_object body) [
    | bad err ↦
        unparsed body err
          "returned data structure does not match object. Are you forgetting `;list` suffix"
    | good f ↦ answer (record { body = f; lease = none; warnings = []; headers = [] })
  ]

  unfoldable pub count_response : HttpResponse → Response
  count_response resp =
      let header = header_get "X-Total-Count" resp.header in
      let count : ℤ =
        if header == ""
        then negsuc 0
        else elim (env.read_number header) [ none ↦ negsuc 0 | some n ↦ n ] in
      answer (record {
        body = field "total_count" (number count) end;
        lease = none;
        warnings = [];
        headers = [];
      })

abbrev pub plugin_version : String
plugin_version = "TIBCO Cloud Mashery Secret Engine v 0.5"

abbrev pub proxy_mode_indicator : String
proxy_mode_indicator = "X-Proxy-Mode"

-- The loop of `appendXHeadersToResponse` over the headers of the response.
unfoldable pub copy_x_headers : Headers → Headers → Headers
copy_x_headers [] out = out
copy_x_headers ((k, v) ∷ rest) out =
    copy_x_headers rest (if starts_with k "X-" || starts_with k "WWW-" then insert k v out else out)

unfoldable pub append_x_headers : HttpResponse → Headers → Headers
unfolding copy_x_headers
append_x_headers resp out =
    let date = header_get "Date" resp.header in
    copy_x_headers resp.header (if date == "" then out else insert "X-Server-Date" (date ∷ []) out)

-- The body of a response that could not be read is empty.
abbrev pub body_or_empty : Result Blob → Blob
body_or_empty (good b) = b
body_or_empty (bad _) = raw ""

unfoldable pub proxied_response : Env → HttpResponse → String → Response
unfolding append_x_headers
proxied_response env resp content_type = answer (record {
  body = field "http_status_code" (number (pos resp.status_code)) (
      field "http_content_type" (text content_type)
        (field "http_raw_body" (octets (env.show_blob (body_or_empty resp.body))) end));
  lease = none;
  warnings = [];
  headers = append_x_headers resp ((proxy_mode_indicator, plugin_version ∷ []) ∷ []);
})

module _ {env : Env} where
  unfoldable pub render_v3_list_response : Step env ApiContainer (Unit {0})
  unfolding parse_objects list_response
  render_v3_list_response = do
    h ← get_heap
    resp ← deref h.response
    body ← lift resp.body
    parsed ← lift (parse_objects body)
    stop (list_response env resp body parsed)

  unfoldable pub render_v3_array_of_objects : Step env ApiContainer (Unit {0})
  unfolding array_response
  render_v3_array_of_objects = do
    h ← get_heap
    resp ← deref h.response
    stop (array_response env resp (body_or_empty resp.body))

  unfoldable pub render_v3_proxied_response : Step env ApiContainer (Unit {0})
  unfolding proxied_response
  render_v3_proxied_response = do
    h ← get_heap
    resp ← deref h.response
    let content_type = header_get "Content-Type" resp.header
    stop (proxied_response env resp (if content_type == "" then "text/plain" else content_type))

  unfoldable pub render_v3_single_object_response : Step env ApiContainer (Unit {0})
  unfolding single_object_response
  render_v3_single_object_response = do
    h ← get_heap
    resp ← deref h.response
    stop (single_object_response env (body_or_empty resp.body))

  unfoldable pub render_v3_object_count_response : Step env ApiContainer (Unit {0})
  unfolding count_response
  render_v3_object_count_response = do
    h ← get_heap
    resp ← deref h.response
    stop (count_response env resp)

  unfoldable pub render_v3_response_to_empty : Step env ApiContainer (Unit {0})
  render_v3_response_to_empty = pure tt
