-- ===== src/Api/Review/Outcomes.antt =====
-- What a request to the pages of the reviewer leaves committed.
use evidence_flow.Prelude.{
  ◌≡◌, refl, sym, ap, ◌∙◌, subst, Option, none, some, map_option, Text, ◌==◌, ==_iff, nat_eq,
  list_eq, option_eq, find-test, some_injective, Result, ok, err, Bool-cases, inl, inr,
}
use evidence_flow.Domain.Failures.{Error, is_approval_error, default_approval_ttl}
use evidence_flow.Repositories.Models.{Document, Extraction, Approval, Env, Db}
use evidence_flow.Repositories.Documents.{get_document, latest_extraction}
use evidence_flow.Repositories.Session.{Session, opened, in_session, close_session, session_scope}
use evidence_flow.Services.Approval.{approve_extraction}
use evidence_flow.Services.Approval.Outcomes.{approve_extraction-IsGranted, approved_as}
use evidence_flow.Api.Routes.{required}
use evidence_flow.Api.Review.{Redirect, back, approved_by, after_approve, approve_shown, approve}

-- The hash that a page shows.
abbrev pub shown_hash : Option Extraction → Option Text
shown_hash none = none
shown_hash (some x) = x.payload_hash

-- The answer that an approval went through.
abbrev pub Approves : Text → Result Error Redirect → Type 0
Approves actor r = (id : Text) × (r ≡ ok (back id (approved_by actor)))

after_approve-Approves :
    (id actor : Text) (ran : Result Error Approval × Session)
    → Approves actor (close_session (after_approve id actor ran)).0
    → (a : Approval) × (ran.0 ≡ ok a) × ((close_session (after_approve id actor ran)).1 ≡ ran.1.db)
unfolding close_session
after_approve-Approves id actor (ok a, s) h = (a, refl, refl)
after_approve-Approves id actor (err e, s) (k, h) = elim (Bool-cases (is_approval_error e)) [
  | inl refused ↦ absurd (let g = rw refused at h in cc)
  | inr other ↦ absurd (let g = rw other at h in cc)
]

-- The version that the reviewer saw is the approved one.
pub record ApprovedAs (document_id payload_hash : Text) (db after : Db) : Type 0 where
  pub shown : shown_hash (latest_extraction document_id db) ≡ some payload_hash
  pub row :
      get_document document_id after
      ≡ map_option (approved_as payload_hash) (get_document document_id db)

shown-ApprovedAs :
    (env : Env) (actor payload_hash : Text) (document : Document) (x : Option Extraction) (db : Db)
    → latest_extraction document.id db ≡ x
    → Approves actor (close_session (approve_shown env actor payload_hash document x (opened db))).0
    → ApprovedAs document.id payload_hash db
        (close_session (approve_shown env actor payload_hash document x (opened db))).1
unfolding close_session
shown-ApprovedAs env actor payload_hash document none db e (k, h) = absurd (cc)
shown-ApprovedAs env actor payload_hash document (some x) db e h =
    elim (Bool-cases (x.payload_hash == some payload_hash)) [
      | inr miss ↦ absurd (let (k, g) = rw miss at h in cc)
      | inl same ↦
          let run =
            in_session (approve_extraction env document x actor default_approval_ttl) (opened db) in
          let shown = (==_iff x.payload_hash (some payload_hash)).0 same in
          let (a, made, left) = after_approve-Approves document.id actor run (rw same at h) in
          let g =
            approve_extraction-IsGranted env document x actor default_approval_ttl db a made in
          let same_hash : a.payload_hash ≡ payload_hash = some_injective (sym g.of_hash ∙ shown) in
          rw same (record {
            shown = rw e shown;
            row =
                ap (get_document document.id) left
                ∙ g.marked
                ∙ ap (λ t. map_option (approved_as t) (get_document document.id db)) same_hash;
          })
    ]

required-ApprovedAs :
    (env : Env) (actor document_id payload_hash : Text) (db : Db) (document : Option Document)
    → get_document document_id db ≡ document
    → Approves actor
        (close_session (
          required
            (λ d s. approve_shown env actor payload_hash d (latest_extraction document_id s.db) s)
            document
            (opened db))).0
    → ApprovedAs document_id payload_hash db
        (close_session (
          required
            (λ d s. approve_shown env actor payload_hash d (latest_extraction document_id s.db) s)
            document
            (opened db))).1
unfolding close_session
required-ApprovedAs env actor document_id payload_hash db none e (k, h) = absurd (cc)
required-ApprovedAs env actor document_id payload_hash db (some document) e h =
    let same : document.id ≡ document_id =
      (==_iff document.id document_id).0
        (find-test (λ d. d.id == document_id) db.documents document (unfold get_document in e)) in
    subst
      (λ i.
        ApprovedAs i payload_hash db
          (close_session (
            approve_shown env actor payload_hash document (latest_extraction document_id db)
              (opened db))).1)
      same
      (shown-ApprovedAs env actor payload_hash document (latest_extraction document_id db) db
        (ap (λ i. latest_extraction i db) same) h)

-- If the answer to the page is that its document was approved, the latest extraction had the hash
-- that the page submitted, and the row of the document is now approved for that hash.
pub approve-ApprovedAs :
    (env : Env) (actor document_id payload_hash : Text) (db : Db)
    → Approves actor (session_scope (approve env actor document_id payload_hash) db).0
    → ApprovedAs document_id payload_hash db
        (session_scope (approve env actor document_id payload_hash) db).1
unfolding session_scope approve
approve-ApprovedAs env actor document_id payload_hash db h =
    required-ApprovedAs env actor document_id payload_hash db (get_document document_id db) refl h
