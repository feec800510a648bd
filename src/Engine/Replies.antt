-- ===== src/Engine/Replies.antt =====
-- internal/engine/engine.go: what a reply that succeeds says of the steps before it.
use rekam.Prelude.{Text, Bool, true, false, not, List, ◌≡◌, refl, sym, ap, ◌∙◌, subst, arith}
use rekam.Scope.{Scope, can_read, can_write}
use rekam.Store.{
  Memory, LinkStatus, Store, not_found, deleted, version_conflict, title_conflict, bad_grade,
  constraint_failed, Result, ok, err, get,
}
use rekam.Engine.{
  Reply, reply, refuse, Refusal, ◌>>=◌, found, refuse_if, from_store, readable_memory,
  writable_memory, redact_link_resolution, redacted, Written,
}

pub >>=-reply :
    {A B : Type 0} (m : Reply A) (f : A → Reply B) (b : B)
    → (m >>= f) ≡ reply b
    → (a : A) × ((m ≡ reply a) × (f a ≡ reply b))
>>=-reply (reply a) f b h = (a, (refl, h))
>>=-reply (refuse e) f b h = absurd (cc)

pub refuse_if-reply :
    {B : Type 0} (c : Bool) (e : Refusal) (k : Reply B) (b : B)
    → (refuse_if c e >>= λ _. k) ≡ reply b
    → (c ≡ false) × (k ≡ reply b)
refuse_if-reply true e k b h = absurd (cc)
refuse_if-reply false e k b h = (refl, h)

reply_injective : {A : Type 0} (a b : A) → reply a ≡ reply b → a ≡ b
reply_injective a b h = ap (λ r. reply_or a r) h
  where
    reply_or : {B : Type 0} → B → Reply B → B
    reply_or d (reply y) = y
    reply_or d (refuse e) = d

pub from_store-reply : {A : Type 0} (r : Result A) (a : A) → from_store r ≡ reply a → r ≡ ok a
from_store-reply (ok x) a h = ap (λ y. ok y) (reply_injective x a h)
from_store-reply (err e) a h = absurd (cc)

-- the memory is there, and the scope may read and write it
pub record MayWrite (s : Store) (scope : Scope) (id : Text) (m : Memory) : Type 0 where
  pub live : get s id ≡ ok m
  pub reads : can_read scope m.taxonomy ≡ true
  pub writes : can_write scope m.taxonomy ≡ true

found-reply : (id : Text) (r : Result Memory) (m : Memory) → found id r ≡ reply m → r ≡ ok m
found-reply id (ok x) m h = ap (λ y. ok y) (reply_injective x m h)
found-reply id (err (not_found x)) m h = absurd (cc)
found-reply id (err (deleted t)) m h = absurd (cc)
found-reply id (err (version_conflict i b c)) m h = absurd (cc)
found-reply id (err (title_conflict i b)) m h = absurd (cc)
found-reply id (err (bad_grade g)) m h = absurd (cc)
found-reply id (err constraint_failed) m h = absurd (cc)

pub writable_memory-reply :
    (s : Store) (scope : Scope) (id : Text) (m : Memory)
    → writable_memory s scope id ≡ reply m
    → MayWrite s scope id m
unfolding writable_memory readable_memory
writable_memory-reply s scope id m h =
    let (a, (r, h1)) = >>=-reply (readable_memory s scope id) _ m h in
    let (w, e1) = refuse_if-reply (not (can_write scope a.taxonomy)) _ (reply a) m h1 in
    let (b, (f, h2)) = >>=-reply (found id (get s id)) _ a r in
    let (q, e2) = refuse_if-reply (not (can_read scope b.taxonomy)) _ (reply b) a h2 in
    let ba : b ≡ a = reply_injective b a e2 in
    let am : a ≡ m = reply_injective a m e1 in
    record {
      live = found-reply id (get s id) b f ∙ ap (λ y. ok y) (ba ∙ am);
      reads = subst (λ y. can_read scope y.taxonomy ≡ true) (ba ∙ am) (ground (arith, q));
      writes = subst (λ y. can_write scope y.taxonomy ≡ true) am (ground (arith, w));
    }

pub redacted-state :
    (scope : Scope) (w : Written) (m : Memory) (links : List LinkStatus) (t : Store)
    → reply (redacted scope w) ≡ reply (m, links, t)
    → (from : List LinkStatus) × ((w ≡ (m, from, t))
        × (links ≡ redact_link_resolution t scope from))
unfolding redacted
redacted-state scope (n, from, u) m links t h =
    let e = reply_injective (n, redact_link_resolution u scope from, u) (m, links, t) h in
    let eu : u ≡ t = ap (λ x. x.2) e in
    (
      from,
      (
        ap (λ x. (x.0, from, x.2)) e,
        sym (ap (λ x. x.1) e) ∙ ap (λ x. redact_link_resolution x scope from) eu,
      ),
    )
