-- ===== src/Examples/Accounts.antt =====
-- A Redis that keeps each key's value and the end of its lifetime, and runs of the accounts on it.
mod Tally
mod Sessions
use go_saas_api.Common.{
  ℕ, ◌+◌, ◌≡◌, ◌≢◌, ◌↔◌, refl, ap, ◌∙◌, String, Bool, true, false, Option, none, some, ◌==◌,
  string_eq, Comparable, if◌then◌else◌, ltb, inl, beq_refl,
}
use go_saas_api.Auth.{Key, refresh, pwdreset, oauth_state, Lookup, found, missing, Redis}
use go_saas_api.Auth.Tokens.{Documented, Reliable}
use go_saas_api.Auth.Users.Rows.{differs}

abbrev pub key_equals : Key → Key → Bool
key_equals (refresh a) (refresh b) = a == b
key_equals (refresh a) (pwdreset b) = false
key_equals (refresh a) (oauth_state b) = false
key_equals (pwdreset a) (refresh b) = false
key_equals (pwdreset a) (pwdreset b) = a == b
key_equals (pwdreset a) (oauth_state b) = false
key_equals (oauth_state a) (refresh b) = false
key_equals (oauth_state a) (pwdreset b) = false
key_equals (oauth_state a) (oauth_state b) = a == b

pub key_equals_iff : (j k : Key) → (key_equals j k ≡ true) ↔ (j ≡ k)
key_equals_iff (refresh a) (refresh b) =
    ((λ e. ap refresh ((string_eq.equals_iff a b).0 e)), (λ e. (string_eq.equals_iff a b).1 (cc e)))
key_equals_iff (refresh a) (pwdreset b) = ((λ e. cc e), (λ e. cc e))
key_equals_iff (refresh a) (oauth_state b) = ((λ e. cc e), (λ e. cc e))
key_equals_iff (pwdreset a) (refresh b) = ((λ e. cc e), (λ e. cc e))
key_equals_iff (pwdreset a) (pwdreset b) = (
  (λ e. ap pwdreset ((string_eq.equals_iff a b).0 e)),
  (λ e. (string_eq.equals_iff a b).1 (cc e)),
)
key_equals_iff (pwdreset a) (oauth_state b) = ((λ e. cc e), (λ e. cc e))
key_equals_iff (oauth_state a) (refresh b) = ((λ e. cc e), (λ e. cc e))
key_equals_iff (oauth_state a) (pwdreset b) = ((λ e. cc e), (λ e. cc e))
key_equals_iff (oauth_state a) (oauth_state b) = (
  (λ e. ap oauth_state ((string_eq.equals_iff a b).0 e)),
  (λ e. (string_eq.equals_iff a b).1 (cc e)),
)

instance abbrev pub key_eq : Comparable Key
key_eq = record { equals = key_equals; equals_iff = key_equals_iff }

abbrev pub Entry : Type 0
Entry = Option (String × ℕ)

abbrev pub Table : Type 0
Table = Key → Entry

abbrev pub live : ℕ → Entry → Option String
live t none = none
live t (some (v, end)) = if ltb t end then some v else none

abbrev pub answer : Option String → Lookup
answer none = missing
answer (some v) = found v

abbrev pub put : Key → Entry → Table → Table
put k e s j = if j == k then e else s j

pub put_other : (k j : Key) (e : Entry) (s : Table) → j ≢ k → put k e s j ≡ s j
put_other k j e s ne = rw (differs j k ne) refl

pub put_same : (k : Key) (e : Entry) (s : Table) → put k e s k ≡ e
put_same k e s = rw (beq_refl k) refl

abbrev pub memory : Redis
memory = record {
  State = Table;
  set = λ k v ttl now s. (true, put k (some (v, now + ttl)) s);
  get = λ k now s. (answer (live now (s k)), s);
  del = λ k now s. (true, put k none s);
  get_del = λ k now s. (answer (live now (s k)), put k none s);
}

pub answer-found : (o : Option String) (v : String) → answer o ≡ found v → o ≡ some v
answer-found none v e = cc
answer-found (some u) v e = cc

abbrev pub documented : Documented memory
documented = record {
  holds = λ s k t. live t (s k);
  set_other = λ k v ttl now s j t ne. ap (live t) (put_other k j (some (v, now + ttl)) s ne);
  get_keeps = λ k now s j t. refl;
  get_found = λ k now s v e. answer-found (live now (s k)) v e;
  del_other = λ k now s j t ne. ap (live t) (put_other k j none s ne);
  del_only = λ k now s t. inl (ap (live t) (put_same k none s));
  del_done = λ k now s t e. ap (live t) (put_same k none s);
  get_del_other = λ k now s j t ne. ap (live t) (put_other k j none s ne);
  get_del_found = λ k now s v e. answer-found (live now (s k)) v e;
  get_del_done = λ k now s t e. ap (live t) (put_same k none s);
}

pub reliable : Reliable documented
reliable = record {
  set_done = λ k v ttl now s. refl;
  set_holds =
      λ k v ttl now s t early. ap (live t) (put_same k (some (v, now + ttl)) s) ∙ rw early refl;
  get_holds = λ k now s v e. ap answer e;
  del_works = λ k now s. refl;
}
