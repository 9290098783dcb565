-- ===== src/Store/Audit/Chain.antt =====
-- AuditRepository: `append` and the chain that `verify_chain` follows.
use mathlib.Core.List.{append-nil}
use tasks_management.Base.{
  ==_eq, Bool, Bool-cases, Call, List, Option, Platform, String, [], ap, arith, false,
  if◌then◌else◌, inl, inr, length, nat_eq, none, not, option_eq, refl, select, select-append, some,
  sort, string_eq, subst, suc, sym, true, ℕ, ◌++◌, ◌+◌, ◌==◌, ◌||◌, ◌∙◌, ◌∷◌, ◌≡◌, ◌≤◌,
}
use tasks_management.Store.Rows.{AuditEvent}
use tasks_management.Store.Audit.{
  AuditEntry, append_audit, audit_event, entry_of, event_hash, hash_of, latest, next_sequence,
  verify_chain, verify_from,
}
use tasks_management.Store.Audit.Order.{
  AtMost, AtMost-of_sort, earlier, last, latest-eq-last, of_environment, sort-append,
}

-- the hash that the next event has to name
abbrev hash_after : Option String → List AuditEvent → Option String
hash_after previous [] = previous
hash_after previous (e ∷ es) = hash_after (some e.event_hash) es

hash_after-eq-hash_of :
    (previous : Option String) (e : AuditEvent) (es : List AuditEvent)
    → hash_after previous (e ∷ es) ≡ hash_of (last (e ∷ es))
hash_after-eq-hash_of previous e [] = refl
hash_after-eq-hash_of previous e (f ∷ es) = hash_after-eq-hash_of (some e.event_hash) f es

all_pass :
    (a b c d : Bool)
    → (if not a || not b then false else if not c then false else d) ≡ true
    → (a ≡ true) × (b ≡ true) × (c ≡ true) × (d ≡ true)
all_pass a b c d h = ground arith

pass_all :
    (a b c d : Bool)
    → a ≡ true
    → b ≡ true
    → c ≡ true
    → d ≡ true
    → (if not a || not b then false else if not c then false else d) ≡ true
pass_all a b c d p q r s = ground arith

module _ (platform : Platform) where
  -- the tests that `verify_chain` makes of one event
  abbrev IsLinked : ℕ → Option String → AuditEvent → Type 0
  IsLinked expected previous e =
      (e.sequence_number ≡ expected)
      × (e.previous_hash ≡ previous)
      × (event_hash platform e.sequence_number e.previous_hash (entry_of platform e) ≡ e.event_hash)

  verify_from-cons :
      (expected : ℕ) (previous : Option String) (e : AuditEvent) (es : List AuditEvent)
      → verify_from platform expected previous (e ∷ es) ≡ true
      → IsLinked expected previous e
        × (verify_from platform (suc expected) (some e.event_hash) es ≡ true)
  unfolding verify_from
  verify_from-cons expected previous e es h =
      let digest = event_hash platform e.sequence_number e.previous_hash (entry_of platform e) in
      let (same_number, same_previous, same_hash, rest) =
        all_pass (e.sequence_number == expected) (e.previous_hash == previous)
          (digest == e.event_hash) _ h in
      (
        (
          ==_eq {a = e.sequence_number} same_number,
          ==_eq {a = e.previous_hash} same_previous,
          ==_eq {a = digest} same_hash,
        ),
        rest,
      )

  cons-verify_from :
      (expected : ℕ) (previous : Option String) (e : AuditEvent) (es : List AuditEvent)
      → IsLinked expected previous e
      → verify_from platform (suc expected) (some e.event_hash) es ≡ true
      → verify_from platform expected previous (e ∷ es) ≡ true
  unfolding verify_from
  cons-verify_from expected previous e es (numbered, linked, hashed) rest =
      let digest = event_hash platform e.sequence_number e.previous_hash (entry_of platform e) in
      pass_all (e.sequence_number == expected) (e.previous_hash == previous)
        (digest == e.event_hash) _ ((nat_eq.same_iff e.sequence_number expected).1 numbered)
        ((option_eq.same_iff e.previous_hash previous).1 linked)
        ((string_eq.same_iff digest e.event_hash).1 hashed) rest

  -- the numbers of an accepted chain run from the expected one
  chain_numbers :
      (expected : ℕ) (previous : Option String) (e : AuditEvent) (es : List AuditEvent)
      → verify_from platform expected previous (e ∷ es) ≡ true
      → next_sequence (last (e ∷ es)) ≡ expected + length (e ∷ es)
  chain_numbers expected previous e [] h =
      let (link, rest) = verify_from-cons expected previous e [] h in omega (arith, link.0)
  chain_numbers expected previous e (f ∷ es) h =
      let (link, rest) = verify_from-cons expected previous e (f ∷ es) h in
      omega (arith, chain_numbers (suc expected) (some e.event_hash) f es rest)

  chain-AtMost :
      (expected : ℕ) (previous : Option String) (es : List AuditEvent)
      → verify_from platform expected previous es ≡ true
      → (n : ℕ) → expected + length es ≤ suc n
      → AtMost n es
  chain-AtMost expected previous [] h n bound = tt
  chain-AtMost expected previous (e ∷ es) h n bound =
      let (link, rest) = verify_from-cons expected previous e es h in
      (
        omega (arith, link.0),
        chain-AtMost (suc expected) (some e.event_hash) es rest n (omega arith),
      )

  verify_from-append :
      (expected : ℕ) (previous : Option String) (es : List AuditEvent) (x : AuditEvent)
      → verify_from platform expected previous es ≡ true
      → IsLinked (expected + length es) (hash_after previous es) x
      → verify_from platform expected previous (es ++ x ∷ []) ≡ true
  verify_from-append expected previous [] x h link =
      cons-verify_from expected previous x [] (omega (arith, link.0), link.1, link.2)
        (unfold verify_from in refl)
  verify_from-append expected previous (e ∷ es) x h link =
      let (first, rest) = verify_from-cons expected previous e es h in
      cons-verify_from expected previous e (es ++ x ∷ []) first (
        verify_from-append (suc expected) (some e.event_hash) es x rest
          (omega (arith, link.0), link.1, link.2))

  -- what `append` writes is linked to the last event of the chain
  append-IsLinked :
      (call : Call) (n : ℕ) (env : String) (a : AuditEntry) (es : List AuditEvent)
      → verify_from platform 1 none es ≡ true
      → IsLinked
          (1 + length es)
          (hash_after none es)
          (audit_event platform call n env (next_sequence (last es)) (hash_of (last es)) a)
  unfolding audit_event
  append-IsLinked call n env a [] h = (omega arith, refl, refl)
  append-IsLinked call n env a (e ∷ es) h =
      (chain_numbers 1 none e es h, sym (hash_after-eq-hash_of none e es), refl)

  append_own :
      (env : String) (log : List AuditEvent) (x : AuditEvent)
      → verify_chain platform env log ≡ true
      → x.environment ≡ env
      → IsLinked
          (1 + length (sort earlier (of_environment env log)))
          (hash_after none (sort earlier (of_environment env log)))
          x
      → verify_chain platform env (log ++ x ∷ []) ≡ true
  unfolding verify_chain
  append_own env log x h mine link =
      let own = of_environment env log in
      let es = sort earlier own in
      let single : of_environment env (x ∷ []) ≡ x ∷ [] =
        unfold select in rw ((string_eq.same_iff x.environment env).1 mine) in
      let bound : AtMost x.sequence_number own =
        AtMost-of_sort x.sequence_number own
          (chain-AtMost 1 none es h x.sequence_number (omega (arith, link.0))) in
      let sorted : sort earlier (of_environment env (log ++ x ∷ [])) ≡ es ++ x ∷ [] =
        ap (sort earlier)
          (select-append (λ e. e.environment == env) log (x ∷ []) ∙ ap (λ r. own ++ r) single)
        ∙ sort-append own x bound in
      subst (λ r. verify_from platform 1 none r ≡ true) (sym sorted)
        (verify_from-append 1 none es x h link)

  append_foreign :
      (other : String) (log : List AuditEvent) (x : AuditEvent)
      → (x.environment == other) ≡ false
      → verify_chain platform other (log ++ x ∷ []) ≡ verify_chain platform other log
  unfolding verify_chain
  append_foreign other log x foreign =
      let single : of_environment other (x ∷ []) ≡ [] = unfold select in rw foreign in
      ap (λ r. verify_from platform 1 none (sort earlier r))
        (select-append (λ e. e.environment == other) log (x ∷ [])
          ∙ ap (λ r. of_environment other log ++ r) single
          ∙ append-nil (of_environment other log))

  -- Appending an event to the log of one environment keeps the chain of every environment valid that
  -- was valid before, provided that the chain of its own environment was.
  pub verify_chain-append_audit :
      (call : Call) (n : ℕ) (env other : String) (a : AuditEntry) (log : List AuditEvent)
      → verify_chain platform env log ≡ true
      → verify_chain platform other log ≡ true
      → verify_chain platform other (append_audit platform call n env a log) ≡ true
  unfolding append_audit
  verify_chain-append_audit call n env other a log h k =
      let es = sort earlier (of_environment env log) in
      let x =
        audit_event platform call n env (next_sequence (latest env log)) (hash_of (latest env log))
          a in
      elim (Bool-cases (env == other)) [
        | inl mine ↦
            subst (λ o. verify_chain platform o (log ++ x ∷ []) ≡ true) (==_eq {a = env} mine)
              (append_own env log x h (unfold audit_event in refl) (
                subst
                  (λ (l : Option AuditEvent).
                    IsLinked (1 + length es) (hash_after none es)
                      (audit_event platform call n env (next_sequence l) (hash_of l) a))
                  (sym (latest-eq-last env log))
                  (append-IsLinked call n env a es (unfold verify_chain in h))))
        | inr foreign ↦ append_foreign other log x (unfold audit_event in foreign) ∙ k
      ]
