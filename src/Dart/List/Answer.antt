-- ===== src/Dart/List/Answer.antt =====
-- What the disclosure client reads of an answer (modules/dart-crawler/src/dart_client.cpp).
use lemuel_quant_core.Base.{
  ◌≡◌, refl, Bool, true, false, Option, none, some, List, [], ◌∷◌, arith, if◌then◌else◌,
}
use lemuel_quant_core.Base.Bytes.{Bytes, lit, bytes_eq, is_empty}
use lemuel_quant_core.Dart.{Disclosure}
use lemuel_quant_core.Dart.List.{
  Fields, field, Items, item, Members, member, read_items, read_answer,
}

-- The fields of a disclosure in the order of the service.
abbrev fields_of : Disclosure → Fields
fields_of d = field (lit "corp_code") (some d.corp_code) (
    field (lit "corp_name") (some d.corp_name) (
      field (lit "stock_code") (some d.stock_code) (
        field (lit "corp_cls") (some d.corp_cls) (
          field (lit "report_nm") (some d.report_nm) (
            field (lit "rcept_no") (some d.rcept_no) (
              field (lit "flr_nm") (some d.flr_nm) (
                field (lit "rcept_dt") (some d.rcept_dt)
                  (field (lit "rm") (some d.rm) Fields.ended))))))))

abbrev items_of : List Disclosure → Items
items_of [] = Items.ended
items_of (d ∷ ds) = item (fields_of d) (items_of ds)

abbrev numbered : List Disclosure → List Disclosure
numbered [] = []
numbered (d ∷ ds) = if is_empty d.rcept_no then numbered ds else d ∷ numbered ds

-- Members in front of others.
abbrev preceded : List (Option Bytes × Items) → Members → Members
preceded [] rest = rest
preceded ((key, value) ∷ before) rest = member key value (preceded before rest)

abbrev is_other : Option Bytes → Bool
is_other none = true
is_other (some key) = if bytes_eq key (lit "list") then false else true

abbrev are_other : List (Option Bytes × Items) → Bool
are_other [] = true
are_other ((key, value) ∷ before) = if is_other key then are_other before else false

read_items-items_of : (ds : List Disclosure) → read_items (items_of ds) ≡ some (numbered ds)
unfolding read_items
read_items-items_of [] = refl
read_items-items_of (d ∷ ds) = rw (read_items-items_of ds, read_items) refl

-- An answer that lists disclosures is read as these disclosures in their order, all but those without a
-- number, whatever other members stand before the list and whatever follows it, an error included.
read_answer-items_of :
    (before : List (Option Bytes × Items)) (ds : List Disclosure) (rest : Members)
    → are_other before ≡ true
    → read_answer (preceded before (member (some (lit "list")) (items_of ds) rest))
      ≡ some (numbered ds)
unfolding read_answer
read_answer-items_of [] ds rest h = read_items-items_of ds
read_answer-items_of ((none, value) ∷ before) ds rest h = read_answer-items_of before ds rest h
read_answer-items_of ((some key, value) ∷ before) ds rest h =
    let other : bytes_eq key (lit "list") ≡ false = ground arith in
    rw (other, read_answer) (read_answer-items_of before ds rest (ground arith))
