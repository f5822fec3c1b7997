-- ===== src/Dart/List/Url.antt =====
-- The request of the disclosure client (modules/dart-crawler/src/dart_client.cpp).
use lemuel_quant_core.Base.{
  ℕ, ◌≡◌, ◌≢◌, refl, sym, ap, ◌∙◌, List, [], ◌∷◌, ◌++◌, append_assoc, append-nil, arith, All,
  All-append, if◌then◌else◌,
}
use lemuel_quant_core.Base.Bytes.{Bytes, lit, is_empty, decimal, decimal-Digit}
use lemuel_quant_core.Base.Split.{split, Free, split-join}
use lemuel_quant_core.Base.Join.{led, join-led, led-append, All-imp}
use lemuel_quant_core.Base.Find.{is_free→Free}
use lemuel_quant_core.Dart.{ListQuery}
use lemuel_quant_core.Dart.List.{optional, list_url}

module _ (esc : Bytes → Bytes) where
  -- A parameter that is there if its value is not empty.
  abbrev pub given : Bytes → Bytes → List Bytes
  given name v = if is_empty v then [] else (name ++ esc v) ∷ []

  optional-led : (name v : Bytes) → optional name esc v ≡ led 0x26 (given name v)
  optional-led name [] = refl
  optional-led name (c ∷ v) = ap (◌∷◌ 0x26) (sym (append-nil (name ++ esc (c ∷ v))))

  -- The parameters behind the first one.
  abbrev parameters : ListQuery → List Bytes
  parameters q =
      (lit "page_no=" ++ decimal q.page_no)
      ∷ (lit "page_count=" ++ decimal q.page_count)
      ∷ (given (lit "corp_code=") q.corp_code
          ++ (given (lit "bgn_de=") q.bgn_de
              ++ (given (lit "end_de=") q.end_de ++ given (lit "pblntf_ty=") q.pblntf_ty)))

  abbrev first_part : Bytes → Bytes → Bytes
  first_part base_url api_key = base_url ++ (lit "/api/list.json?crtfc_key=" ++ esc api_key)

  list_url-led :
      (base_url api_key : Bytes) (q : ListQuery)
      → list_url esc base_url api_key q ≡ first_part base_url api_key ++ led 0x26 (parameters q)
  unfolding list_url
  list_url-led base_url api_key q =
      let corp = given (lit "corp_code=") q.corp_code in
      let bgn = given (lit "bgn_de=") q.bgn_de in
      let end = given (lit "end_de=") q.end_de in
      let type = given (lit "pblntf_ty=") q.pblntf_ty in
      rw
        (
          optional-led (lit "corp_code=") q.corp_code,
          optional-led (lit "bgn_de=") q.bgn_de,
          optional-led (lit "end_de=") q.end_de,
          optional-led (lit "pblntf_ty=") q.pblntf_ty,
          led-append 0x26 corp (bgn ++ (end ++ type)),
          led-append 0x26 bgn (end ++ type),
          led-append 0x26 end type,
        )
        (simp append_assoc)

  module _ (clean : (s : Bytes) → Free 0x26 (esc s)) where
    given-Free : (name v : Bytes) → Free 0x26 name → All (Free 0x26) (given name v)
    given-Free name [] h = tt
    given-Free name (c ∷ v) h =
        (All-append (λ b. b ≢ 0x26) name (esc (c ∷ v)) h (clean (c ∷ v)), tt)

    decimal-Free : (n : ℕ) → Free 0x26 (decimal n)
    decimal-Free n = All-imp (λ c h e. omega (arith, h.0)) (decimal n) (decimal-Digit n)

    append-Free : (a b : Bytes) → Free 0x26 a → Free 0x26 b → Free 0x26 (a ++ b)
    append-Free = All-append (λ c. c ≢ 0x26)

    parts :
        (base_url api_key : Bytes) (q : ListQuery)
        → Free 0x26 base_url
        → All (Free 0x26) (first_part base_url api_key ∷ parameters q)
    parts base_url api_key q h =
        let corp =
          given-Free (lit "corp_code=") q.corp_code (is_free→Free 0x26 (lit "corp_code=") refl) in
        let bgn = given-Free (lit "bgn_de=") q.bgn_de (is_free→Free 0x26 (lit "bgn_de=") refl) in
        let end = given-Free (lit "end_de=") q.end_de (is_free→Free 0x26 (lit "end_de=") refl) in
        let type =
          given-Free (lit "pblntf_ty=") q.pblntf_ty (is_free→Free 0x26 (lit "pblntf_ty=") refl) in
        let limits = All-append (Free 0x26) (given (lit "corp_code=") q.corp_code) _ corp (
          All-append (Free 0x26) (given (lit "bgn_de=") q.bgn_de) _ bgn
            (All-append (Free 0x26) (given (lit "end_de=") q.end_de) _ end type)) in
        let no =
          append-Free (lit "page_no=") (decimal q.page_no) (is_free→Free 0x26 (lit "page_no=") refl)
            (decimal-Free q.page_no) in
        let count =
          append-Free (lit "page_count=") (decimal q.page_count)
            (is_free→Free 0x26 (lit "page_count=") refl) (decimal-Free q.page_count) in
        let first = append-Free base_url (lit "/api/list.json?crtfc_key=" ++ esc api_key) h (
          append-Free (lit "/api/list.json?crtfc_key=") (esc api_key)
            (is_free→Free 0x26 (lit "/api/list.json?crtfc_key=") refl) (clean api_key)) in
        (first, (no, (count, limits)))

    -- If the escaped texts and the base have no `&`: cut at `&`, the request is the base with the key, the
    -- page, its size, and each of the four limits that is not empty, in this order; nothing that a limit
    -- holds can add a parameter.
    split-list_url :
        (base_url api_key : Bytes) (q : ListQuery)
        → Free 0x26 base_url
        → split 0x26 (list_url esc base_url api_key q) ≡ first_part base_url api_key ∷ parameters q
    split-list_url base_url api_key q h =
        ap (split 0x26) (
          list_url-led base_url api_key q
          ∙ sym (join-led 0x26 (first_part base_url api_key) (parameters q)))
        ∙ split-join 0x26 (first_part base_url api_key) (parameters q) (parts base_url api_key q h)
