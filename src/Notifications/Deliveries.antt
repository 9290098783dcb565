-- ===== src/Notifications/Deliveries.antt =====
-- NotificationWorker.handle: messages that are delivered more than once.
use tasks_management.Base.{
  ==_eq, ==_refl, Bool-cases, Call, List, Option, String, [], and_intro, and_right, ap, arith,
  contains, false, find_first, find_first-append, find_first-holds, find_first-single,
  find_first-update_where, if◌then◌else◌, inl, inr, nat_eq, none, ok, ok-injective, option_eq,
  or_else, refl, some, string_eq, subst, sym, true, ◌==◌, ◌∙◌, ◌∷◌, ◌≡◌, ◌⊎◌,
}
use tasks_management.Notifications.{
  Delivery, MailWorld, Mailer, QueueMessage, WorkerConfig, claim, claim_on, deliver, end_delivery,
  handle, has_key, is_delivery, mark, marked, new_delivery,
}
use mathlib.Core.Option

-- the claim of a key that is being sent, was sent or has failed is refused
abbrev IsClosed : String → String → List Delivery → Type 0
IsClosed env key ds =
    (d : Delivery) × (find_first (is_delivery env key) ds ≡ some d)
    × (contains d.state ("sending" ∷ "sent" ∷ "failed" ∷ []) ≡ true)

claim-closed :
    (call : Call) (env key : String) (ds : List Delivery)
    → IsClosed env key ds
    → claim call key env ds ≡ (false, ds)
unfolding claim
claim-closed call env key ds (d, found, closed) = rw (found, closed) refl

claim-refused :
    (call : Call) (env key : String) (ds : List Delivery) (o : Option Delivery)
    → find_first (is_delivery env key) ds ≡ o
    → (claim_on call key env o ds).0 ≡ false
    → ((claim_on call key env o ds).1 ≡ ds) × IsClosed env key ds
claim-refused call env key ds none found h = cc
claim-refused call env key ds (some d) found h = (refl, (d, found, ground arith))

claim-granted :
    (call : Call) (env key : String) (ds : List Delivery) (o : Option Delivery)
    → find_first (is_delivery env key) ds ≡ o
    → (d : Delivery) × (find_first (is_delivery env key) (claim_on call key env o ds).1 ≡ some d)
      × (has_key key d ≡ true)
claim-granted call env key ds none found =
    let d = new_delivery call env key in
    (
      d,
      find_first-append (is_delivery env key) ds (d ∷ [])
          ∙ ap (λ o. or_else o (find_first (is_delivery env key) (d ∷ []))) found
          ∙ find_first-single (is_delivery env key) d (and_intro _ _ (==_refl env) (==_refl key)),
      ==_refl key,
    )
claim-granted call env key ds (some d) found =
    (d, found, and_right _ _ (find_first-holds (is_delivery env key) ds d found))

mark-sent :
    (env key : String) (ds : List Delivery) (d : Delivery)
    → find_first (is_delivery env key) ds ≡ some d
    → has_key key d ≡ true
    → IsClosed env key (mark key "sent" none ds)
unfolding mark contains
mark-sent env key ds d found mine = (
  marked "sent" none d,
  find_first-update_where (is_delivery env key) (has_key key) (marked "sent" none) (λ x. refl) ds
      ∙ ap (Option.map (λ x. if has_key key x then marked "sent" none x else x)) found
      ∙ rw mine refl,
  refl,
)

module _ {S : Type 0} (mailer : Mailer S) where
  handle-closed :
      (config : WorkerConfig) (call : Call) (message : QueueMessage) (w : MailWorld S)
      → message.environment ≡ config.environment
      → IsClosed message.environment message.consumer_key w.deliveries
      → handle mailer config call message w ≡ (ok true, w)
  unfolding handle
  handle-closed config call message w mine closed =
      let mine' = (string_eq.same_iff message.environment config.environment).1 mine in
      let refused =
        claim-closed call message.environment message.consumer_key w.deliveries closed in
      rw (mine', refused) refl

  end_delivery-IsClosed :
      (env key : String) (outcome : String ⊎ String) (w : MailWorld S) (d : Delivery)
      → find_first (is_delivery env key) w.deliveries ≡ some d
      → has_key key d ≡ true
      → (end_delivery mailer key outcome w).0 ≡ true
      → IsClosed env key (end_delivery mailer key outcome w).1.deliveries
  unfolding end_delivery
  end_delivery-IsClosed env key (inl raised) w d found mine h = cc
  end_delivery-IsClosed env key (inr id) w d found mine h =
      mark-sent env key w.deliveries d found mine

  deliveries-deliver :
      (config : WorkerConfig) (message : QueueMessage) (alert : Option String) (w : MailWorld S)
      → (deliver mailer config message alert w).1.deliveries ≡ w.deliveries
  unfolding deliver
  deliveries-deliver config message none w = refl
  deliveries-deliver config message (some alert) w = refl

  handled :
      (config : WorkerConfig) (call : Call) (message : QueueMessage) (w : MailWorld S)
      → (handle mailer config call message w).0 ≡ ok true
      → (message.environment ≡ config.environment)
        × IsClosed message.environment message.consumer_key
            (handle mailer config call message w).1.deliveries
  unfolding handle claim
  handled config call message w h =
      let env = message.environment in
      let key = message.consumer_key in
      let claimed =
        claim_on call key env (find_first (is_delivery env key) w.deliveries) w.deliveries in
      let w' = record w { deliveries = claimed.1 } in
      let (outcome, w'') = deliver mailer config message message.alert_id w' in
      let (d, found, mine) = claim-granted call env key w.deliveries _ refl in
      elim (Bool-cases (message.environment == config.environment)) [
        | inr foreign ↦ absurd (cc (rw foreign at h))
        | inl home ↦ (
          ==_eq {a = message.environment} home,
          elim (Bool-cases claimed.0) [
            | inl granted ↦
                rw (home, granted)
                  (end_delivery-IsClosed env key outcome w'' d
                    (rw (deliveries-deliver config message message.alert_id w') found) mine
                    (ok-injective (rw (home, granted) at h)))
            | inr refused ↦
                let (same, closed) = claim-refused call env key w.deliveries _ refl refused in
                rw (home, refused) (subst (IsClosed env key) (sym same) closed)
          ],
        )
      ]

  -- Once a message has been acknowledged, a message under its key is acknowledged again without a mail and
  -- without a change of the deliveries, whatever it says and however the mail service behaves.
  pub handle_again :
      (config : WorkerConfig) (call call' : Call) (message message' : QueueMessage)
      (w : MailWorld S)
      → (handle mailer config call message w).0 ≡ ok true
      → message'.environment ≡ message.environment
      → message'.consumer_key ≡ message.consumer_key
      → let w' = (handle mailer config call message w).1 in
        handle mailer config call' message' w' ≡ (ok true, w')
  handle_again config call call' message message' w h same_env same_key =
      let (home, closed) = handled config call message w h in
      let w' = (handle mailer config call message w).1 in
      handle-closed config call' message' w' (same_env ∙ home) (
        subst (λ k. IsClosed message'.environment k w'.deliveries) (sym same_key)
          (subst (λ e. IsClosed e message.consumer_key w'.deliveries) (sym same_env) closed))
