-- ===== src/RateLimit/ClientIp.antt =====
-- backend/app/middleware/rate_limit.py: which address a request is counted under.
use employed.Base.{
  Bool, Bool-cases, Option, [], ap, append-nil, arith, contains, false, false≢true, if◌then◌else◌,
  inl, inr, is_empty, list_eq, nat_eq, none, option_eq, refl, some, string_eq, sym, true, ℕ, ◌++◌,
  ◌==◌, ◌∙◌, ◌∷◌, ◌≡◌,
}
use employed.RateLimit.{client_ip, host_or_unknown, is_trusted_proxy, last_part, last_part_from}
use employed.Base.Text.{Text, strip}

append_assoc : (xs ys zs : Text) → (xs ++ ys) ++ zs ≡ xs ++ (ys ++ zs)
append_assoc [] ys zs = refl
append_assoc (x ∷ xs) ys zs = ap (λ r. x ∷ r) (append_assoc xs ys zs)

last_part_from-no_comma :
    (part cs : Text) → contains b',' cs ≡ false → last_part_from part cs ≡ part ++ cs
unfolding last_part_from
last_part_from-no_comma part [] h = sym (append-nil part)
last_part_from-no_comma part (c ∷ cs) h = elim (Bool-cases (c == b',')) [
  | inl e ↦ absurd (false≢true (ground arith))
  | inr e ↦
      rw (e, last_part_from)
        (last_part_from-no_comma (part ++ c ∷ []) cs (ground arith) ∙ append_assoc part (c ∷ []) cs)
]

last_part_from-comma :
    (part front rest : Text)
    → contains b',' rest ≡ false
    → last_part_from part (front ++ b',' ∷ rest) ≡ rest
unfolding last_part_from
last_part_from-comma part [] rest h = last_part_from-no_comma [] rest h
last_part_from-comma part (c ∷ front) rest h =
    last_part_from-comma (if c == b',' then [] else part ++ c ∷ []) front rest h

client_ip-untrusted :
    (trusted : Text → Bool) (direct forwarded : Option Text)
    → is_trusted_proxy trusted direct ≡ false
    → client_ip trusted direct forwarded ≡ host_or_unknown direct
unfolding client_ip
client_ip-untrusted trusted direct none h = refl
client_ip-untrusted trusted direct (some f) h = rw h (ground arith)

not_empty : (xs : Text) (c : ℕ) (ys : Text) → is_empty (xs ++ c ∷ ys) ≡ false
not_empty [] c ys = refl
not_empty (x ∷ xs) c ys = refl

-- A peer that is not a trusted proxy is counted under its own address, whatever header it sends.
-- Behind a trusted proxy, the part of the header after its last comma, stripped, decides when it
-- is not blank, whatever stands before that comma.
pub client_ip_forged :
    (trusted : Text → Bool) (stranger proxy forwarded : Option Text) (front rest : Text)
    → is_trusted_proxy trusted stranger ≡ false
    → is_trusted_proxy trusted proxy ≡ true
    → contains b',' rest ≡ false
    → is_empty (strip rest) ≡ false
    → (client_ip trusted stranger forwarded ≡ host_or_unknown stranger)
      × (client_ip trusted proxy (some (front ++ b',' ∷ rest)) ≡ strip rest)
unfolding client_ip last_part
client_ip_forged trusted stranger proxy forwarded front rest s h n b = (
  client_ip-untrusted trusted stranger forwarded s,
  rw (last_part_from-comma [] front rest n, h, b, not_empty front b',' rest) refl,
)
