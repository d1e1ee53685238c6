-- ===== src/Http/Request.antt =====
-- What a handler reads of a request and what it writes: backend/dto/paging.go and response.go, and the
-- parameters of backend/controller/admin.go.
use num_duel.Prelude.{ℕ, ◌≤◌, Bool, Option, none, some, ◌==◌, ltb, List, [], if◌then◌else◌, arith}
use num_duel.Prelude.Int.{ℤ, pos, negsuc}
use num_duel.Prelude.Texts.{codes, atoi}
use num_duel.Model.{Uuid, Time, Text, Result, ok, err, Err, bad_request, is_empty}
use num_duel.Model.Json.{Json, num, obj, end, field}
use num_duel.World.{World}
use num_duel.Api.Errors.{Answer, map_http_error}

-- A bound body is that of `registerRequest` or `loginRequest`, whose name is not used by a login;
-- none stands for a body that does not bind.
pub record Body : Type 0 where
  pub username : Text
  pub email : Text
  pub password : Text

pub record Request : Type 0 where
  pub access_cookie : Option Text
  pub refresh_cookie : Option Text
  pub id_param : Text
  pub query_param : Text → Text
  pub body : Option Body
  pub real_ip : Text

pub record Cookie : Type 0 where
  pub name : Text
  pub value : Text
  pub path : Text
  pub secure : Bool
  pub max_age : ℕ

pub data Content : Type 0 where
  data_content : Json → Content
  error_content : Answer → Content
  no_content : Content
  csv_content : Time → Text → Content

pub record Reply : Type 0 where
  pub status : ℕ
  pub content : Content
  pub cookies : List Cookie

-- `WriteData`
abbrev pub write_data : ℕ → Json → Reply
write_data status j = record { status = status; content = data_content j; cookies = [] }

-- `WriteError`
unfoldable pub write_error : Err → Reply
unfolding map_http_error
write_error e =
    let a = map_http_error e in
    record { status = a.status; content = error_content a; cookies = [] }

abbrev pub write_nothing : Reply
write_nothing = record { status = 204; content = no_content; cookies = [] }

-- `WritePaged`
unfoldable pub write_paged : Json → ℕ → ℕ → ℕ → Reply
write_paged items page limit total = write_data 200 (
    obj (
      field (codes "items") items (
        field (codes "page") (num page)
          (field (codes "limit") (num limit) (field (codes "total") (num total) end)))))

-- A positive number, or what stands in for it.
abbrev pub positive_or : ℕ → Option ℤ → ℕ
positive_or d none = d
positive_or d (some (pos n)) = if n == 0 then d else n
positive_or d (some (negsuc n)) = d

-- `ParsePageLimit`
unfoldable pub parse_page_limit : (Text → Text) → ℕ × ℕ
parse_page_limit query =
    let page = positive_or 1 (atoi (query (codes "page"))) in
    let limit = positive_or 20 (atoi (query (codes "limit"))) in
    (page, if ltb 100 limit then 100 else limit)

-- `parseUUIDParam`
abbrev pub parse_uuid_param : (Text → Option Uuid) → Text → Result Uuid
parse_uuid_param parse raw = elim (parse raw) [ none ↦ err bad_request | some u ↦ ok u ]

-- `parseOptionalUUID` and `parseOptionalTime`
abbrev pub parse_optional : {A : Type 0} → (Text → Option A) → Text → Result (Option A)
parse_optional parse raw =
    if is_empty raw
    then ok none
    else elim (parse raw) [ none ↦ err bad_request | some a ↦ ok (some a) ]

-- A handler's end: the reply to what a use case returned.
abbrev pub reply_to : {A : Type 0} → (A → Reply) → Result A × World → Reply × World
reply_to f (ok a, w) = (f a, w)
reply_to f (err e, w) = (write_error e, w)

positive_or-pos : (d : ℕ) (z : Option ℤ) → 1 ≤ d → 1 ≤ positive_or d z
positive_or-pos d none h = h
positive_or-pos d (some (pos n)) h = ground arith
positive_or-pos d (some (negsuc n)) h = h

-- A page is numbered from 1, and has between 1 and 100 rows, whatever the query says.
pub parse_page_limit_bounds :
    (query : Text → Text)
    → (1 ≤ (parse_page_limit query).0)
      × (1 ≤ (parse_page_limit query).1)
      × ((parse_page_limit query).1 ≤ 100)
unfolding parse_page_limit
parse_page_limit_bounds query =
    let page = positive_or-pos 1 (atoi (query (codes "page"))) (omega arith) in
    let limit = positive_or-pos 20 (atoi (query (codes "limit"))) (omega arith) in
    ground (arith, page, limit)
