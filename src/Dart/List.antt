-- ===== src/Dart/List.antt =====
-- `DartClient::list` (modules/dart-crawler/src/dart_client.cpp). The transfer and the JSON library are
-- arguments: an answer is read as a sequence of fields, which may break with an exception at any place.
pub mod Url
pub mod Answer
use lemuel_quant_core.Base.{
  ℕ, Bool, true, false, ◌==◌, if◌then◌else◌, Option, none, some, ◌>>=◌, List, [], ◌∷◌, ◌++◌,
}
use lemuel_quant_core.Base.Bytes.{Bytes, lit, bytes_eq, is_empty, decimal}
use lemuel_quant_core.Dart.{Disclosure, ListQuery}
use lemuel_quant_core.Dart.Store.{blank}

-- The fields of an object: each with its key and its text, if its value is one.
pub data Fields : Type 0 where
  ended broken : Fields
  field : Bytes → Option Bytes → Fields → Fields

-- The elements of an array of objects; it is broken also where it is no array or has no object.
pub data Items : Type 0 where
  ended broken : Items
  item : Fields → Items → Items

-- The members of the answer, with the key, if it can be read, and the value as an array.
pub data Members : Type 0 where
  ended broken : Members
  member : Option Bytes → Items → Members → Members

-- `sj_str`
abbrev sj_str : Option Bytes → Bytes
sj_str none = []
sj_str (some s) = s

-- The chain of tests of the key.
abbrev set_field : Bytes → Bytes → Disclosure → Disclosure
set_field key v d =
    if bytes_eq key (lit "rcept_no")
    then record d { rcept_no = v }
    else if bytes_eq key (lit "corp_code")
    then record d { corp_code = v }
    else if bytes_eq key (lit "corp_name")
    then record d { corp_name = v }
    else if bytes_eq key (lit "stock_code")
    then record d { stock_code = v }
    else if bytes_eq key (lit "corp_cls")
    then record d { corp_cls = v }
    else if bytes_eq key (lit "report_nm")
    then record d { report_nm = v }
    else if bytes_eq key (lit "flr_nm")
    then record d { flr_nm = v }
    else if bytes_eq key (lit "rcept_dt")
    then record d { rcept_dt = v }
    else if bytes_eq key (lit "rm")
    then record d { rm = v }
    else d

-- The loop over the fields of an item; `none` is an exception.
abbrev read_fields : Fields → Disclosure → Option Disclosure
read_fields Fields.ended d = some d
read_fields Fields.broken d = none
read_fields (field key v rest) d = read_fields rest (set_field key (sj_str v) d)

-- The loop over the items; an item without a number is left out.
unfoldable pub read_items : Items → Option (List Disclosure)
read_items Items.ended = some []
read_items Items.broken = none
read_items (item fields rest) = do
  d ← read_fields fields blank
  out ← read_items rest
  some (if is_empty d.rcept_no then out else d ∷ out)

-- The loop over the members, which ends at the first `list`.
unfoldable pub read_answer : Members → Option (List Disclosure)
unfolding read_items
read_answer Members.ended = some []
read_answer Members.broken = none
read_answer (member none value rest) = read_answer rest
read_answer (member (some key) value rest) =
    let more = read_answer rest in if bytes_eq key (lit "list") then read_items value else more

-- A parameter that is left out if it is empty.
abbrev pub optional : Bytes → (Bytes → Bytes) → Bytes → Bytes
optional name esc v = if is_empty v then [] else lit "&" ++ (name ++ esc v)

unfoldable pub list_url : (Bytes → Bytes) → Bytes → Bytes → ListQuery → Bytes
list_url esc base_url api_key q =
    base_url
    ++ (lit "/api/list.json?crtfc_key="
        ++ (esc api_key
            ++ (lit "&page_no="
                ++ (decimal q.page_no
                    ++ (lit "&page_count="
                        ++ (decimal q.page_count
                            ++ (optional (lit "corp_code=") esc q.corp_code
                                ++ (optional (lit "bgn_de=") esc q.bgn_de
                                    ++ (optional (lit "end_de=") esc q.end_de
                                        ++ optional (lit "pblntf_ty=") esc q.pblntf_ty)))))))))

-- A transfer that succeeded gives the status and the body.
unfoldable pub list :
    Bool
    → (Bytes → Bytes)
    → (Bytes → Option (ℕ × Bytes))
    → (Bytes → Members)
    → Bytes
    → Bytes
    → ListQuery
    → Option (List Disclosure)
unfolding list_url read_answer
list is_init esc perform parse base_url api_key q =
    if is_init
    then elim (perform (list_url esc base_url api_key q)) [
      | none ↦ some []
      | some (http_code, body) ↦ if http_code == 200 then read_answer (parse body) else some []
    ]
    else some []
