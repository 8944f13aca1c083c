-- ===== src/Lockout/Five.antt =====
-- backend/app/routers/auth.py: five failures of one key in a row.
use employed.Base.{
  List, [], ap, arith, false, if◌then◌else◌, leb, length, length-append, list_eq, ltb, nat_eq,
  option_eq, refl, string_eq, ℕ, ◌++◌, ◌+◌, ◌<◌, ◌∙◌, ◌∷◌, ◌≡◌, ◌≢◌, ◌≤◌,
}
use employed.Base.Text.{Text}
use employed.Lockout.{Tracker, attempts_of, drop_old, is_locked, record_failure}
use employed.Lockout.Window.{
  drop_old-recent, record_failure-attempts, record_failure-locked, record_failure-other,
}

-- A failure that is not the fifth joins those that the window still has.
pub grow :
    (key : Text) (now first_at : ℕ) (front : List ℕ) (t : Tracker)
    → attempts_of key t ≡ first_at ∷ front
    → now < first_at + 900
    → length front < 3
    → attempts_of key (record_failure key now t) ≡ first_at ∷ (front ++ now ∷ [])
grow key now first_at front t h lt short =
    let l : leb 5 (length (first_at ∷ (front ++ now ∷ []))) ≡ false =
      ground (arith, length-append front (now ∷ []), short) in
    rw (record_failure-attempts key now t, h, drop_old-recent now first_at front lt, l) refl

pub start :
    (key : Text) (now : ℕ) (t : Tracker)
    → attempts_of key t ≡ []
    → attempts_of key (record_failure key now t) ≡ now ∷ []
unfolding drop_old
start key now t h = rw (record_failure-attempts key now t, h) refl

-- Whether a failure locks, from the attempts that the window still has.
pub locks_when :
    (key : Text) (now later : ℕ) (recent : List ℕ) (t : Tracker)
    → drop_old now (attempts_of key t) ≡ recent
    → now ≤ later
    → (is_locked key later (record_failure key now t)).0
      ≡ (if leb 4 (length recent) then ltb later (now + 900) else (is_locked key later t).0)
locks_when key now later recent t h le =
    let l : leb 5 (length (recent ++ now ∷ [])) ≡ leb 4 (length recent) =
      ground (arith, length-append recent (now ∷ [])) in
    record_failure-locked key now later t le ∙ rw (h, l) refl

-- The tracker after failures of one key at the given moments.
unfoldable pub failures : Text → List ℕ → Tracker → Tracker
unfolding record_failure
failures key [] t = t
failures key (now ∷ moments) t = failures key moments (record_failure key now t)

failures-other :
    (key other : Text) (moments : List ℕ) (later : ℕ) (t : Tracker)
    → key ≢ other
    → (is_locked other later (failures key moments t)).0 ≡ (is_locked other later t).0
unfolding failures
failures-other key other [] later t d = refl
failures-other key other (now ∷ moments) later t d =
    failures-other key other moments later (record_failure key now t) d
    ∙ (record_failure-other key other now later t d).0

-- Five failures of a key that had none, all within 900 seconds, lock it from then on until 900
-- seconds after the last, and leave the lock of every other key as it was; until the fifth, the key
-- is as it was too.
five_failures-is_locked :
    (key other : Text) (a b c d e later : ℕ) (t : Tracker)
    → attempts_of key t ≡ []
    → key ≢ other
    → a ≤ b
    → b ≤ c
    → c ≤ d
    → d ≤ e
    → e < a + 900
    → e ≤ later
    → let four = failures key (a ∷ b ∷ c ∷ d ∷ []) t in
      let five = failures key (a ∷ b ∷ c ∷ d ∷ e ∷ []) t in
      ((is_locked key later four).0 ≡ (is_locked key later t).0)
      × ((is_locked key later five).0 ≡ ltb later (e + 900))
      × ((is_locked other later five).0 ≡ (is_locked other later t).0)
unfolding failures drop_old
five_failures-is_locked key other a b c d e later t none_yet differ ab bc cd de ea le =
    let ta = record_failure key a t in
    let tb = record_failure key b ta in
    let tc = record_failure key c tb in
    let td = record_failure key d tc in
    let ha = start key a t none_yet in
    let hb = grow key b a [] ta ha (omega (arith, bc, cd, de, ea)) (omega arith) in
    let hc = grow key c a (b ∷ []) tb hb (omega (arith, cd, de, ea)) (omega arith) in
    let hd = grow key d a (b ∷ c ∷ []) tc hc (omega (arith, de, ea)) (omega arith) in
    let la = locks_when key a later [] t (ap (drop_old a) none_yet) (omega arith) in
    let lb =
      locks_when key b later (a ∷ []) ta (ap (drop_old b) ha ∙ drop_old-recent b a [] (omega arith))
        (omega arith) in
    let lc =
      locks_when key c later (a ∷ b ∷ []) tb
        (ap (drop_old c) hb ∙ drop_old-recent c a (b ∷ []) (omega arith)) (omega arith) in
    let ld =
      locks_when key d later (a ∷ b ∷ c ∷ []) tc
        (ap (drop_old d) hc ∙ drop_old-recent d a (b ∷ c ∷ []) (omega arith)) (omega arith) in
    let last =
      locks_when key e later (a ∷ b ∷ c ∷ d ∷ []) td
        (ap (drop_old e) hd ∙ drop_old-recent e a (b ∷ c ∷ d ∷ []) ea) le in
    (ld ∙ lc ∙ lb ∙ la, last, failures-other key other (a ∷ b ∷ c ∷ d ∷ e ∷ []) later t differ)
