-- ===== src/Audit/Trail.antt =====
-- backend/app/services/audit.py: what a call of `write_audit` does to the trail.
use employed.Base.{
  ==_iff, Bool-cases, List, Option, String, [], ap, arith, false, inl, inr, list_eq, nat_eq, none,
  option_eq, refl, some, string_eq, true, ℕ, ◌++◌, ◌==◌, ◌∷◌, ◌≡◌, ◌≢◌, ◌⊎◌,
}
use employed.Base.Outcome.{ok, raised}
use employed.Base.Dict.{Dict}
use employed.Audit.{AuditLog, audit_entry, value_error, write_audit}
use employed.Json.{Json}

-- A call has somebody to name: an actor, or a label that is not the empty text.
abbrev pub NamesActor : Option ℕ → Option String → Type 0
NamesActor actor label = (actor ≢ none) ⊎ ((label ≢ none) × (label ≢ some ""))

empty_label : (l : String) → (l == "") ≡ true → (some l ≡ some "")
empty_label l h = ap some ((==_iff l "").0 h)

other_label : (l : String) → (l == "") ≡ false → (some l ≢ some "")
other_label l h e = ground (arith, ==_iff l "")

module _ (action target_type : String) (target_id : ℕ) (before after : Option (Dict String Json))
    (trail : List AuditLog) where
  -- A call that names nobody raises, and one that names an actor or a label returns the entry for
  -- its arguments, with the trail grown by that entry at the end and unchanged before it.
  write_audit_total :
      (actor : Option ℕ) (label : Option String)
      → ((¬ NamesActor actor label)
          × (write_audit actor label action target_type target_id before after trail
              ≡ raised value_error))
        ⊎ (NamesActor actor label
            × (write_audit actor label action target_type target_id before after trail ≡ (
                let entry = audit_entry actor label action target_type target_id before after in
                ok (entry, trail ++ entry ∷ []))))
  unfolding write_audit
  write_audit_total (some a) label = inr (inl (ground arith), refl)
  write_audit_total none none = inl (ground arith, refl)
  write_audit_total none (some l) = elim (Bool-cases (l == "")) [
    | inl e ↦ inl (ground (arith, empty_label l e), rw e)
    | inr e ↦ inr (inr (ground arith, other_label l e), rw e)
  ]
