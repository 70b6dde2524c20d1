-- ===== src/Agent/Nonces.antt =====
-- `InMemoryNonceStore` of infrastructure/nodes/auth.py: the nonces seen, each with the time until
-- which it is remembered.
use project_vpn.Common.{
  ℕ, ◌+◌, ◌<◌, ◌≡◌, Bool, true, false, Option, none, some, Option-cases, Bool-cases, inl, inr, [],
  ◌∷◌, arith, leb, ltb, if◌then◌else◌, refl, sym, Text, text_eq, text_eq_refl, text_eq_sound,
  Instant, seconds,
}
use project_vpn.Common.Table.{Table, find, store, find-store}

pub record NonceStore : Type 0 where
  pub ttl : ℕ
  pub entries : Table Instant

-- `_purge`, on the entries
unfoldable pub purge : Instant → Table Instant → Table Instant
purge now [] = []
purge now ((k, t) ∷ rest) = let kept = purge now rest in if leb t now then kept else (k, t) ∷ kept

-- `expires_at is not None and expires_at > now`
abbrev pub is_live : Option Instant → Instant → Bool
is_live none now = false
is_live (some t) now = ltb now t

unfoldable pub remember : NonceStore → Text → Instant → NonceStore × Bool
remember self key now =
    let entries = purge now self.entries in
    if is_live (find key entries) now
    then (record self { entries = entries }, false)
    else (record self { entries = store key (now + seconds self.ttl) entries }, true)

purge_live :
    (k : Text) (now : Instant) (t : Table Instant) (e : Instant)
    → find k (purge now t) ≡ some e
    → now < e
unfolding purge find
purge_live k now [] e h = cc
purge_live k now ((j, x) ∷ t) e h = ground (arith, purge_live k now t e)

-- After a purge a key that is not live is not there.
purged_none :
    (k : Text) (now : Instant) (t : Table Instant)
    → is_live (find k (purge now t)) now ≡ false
    → find k (purge now t) ≡ none
purged_none k now t h = elim (Option-cases (find k (purge now t))) [
  | inl e ↦ e
  | inr (x, e) ↦ ground (arith, purge_live k now t x e)
]

-- A fresh key is dropped by a later purge exactly when its time has come.
pub purge-store_new :
    (k : Text) (e now : Instant) (t : Table Instant)
    → find k t ≡ none
    → find k (purge now (store k e t)) ≡ (if leb e now then none else some e)
unfolding purge find store
purge-store_new k e now [] h = ground (arith, text_eq_refl k)
purge-store_new k e now ((j, x) ∷ t) h = ground (arith, purge-store_new k e now t)

-- Of two uses of one nonce the second is accepted exactly when the first is forgotten: the store's
-- time to live after it.
pub remember_twice :
    (s : NonceStore) (key : Text) (now later : Instant)
    → (remember s key now).1 ≡ true
    → (remember (remember s key now).0 key later).1 ≡ leb (now + seconds s.ttl) later
unfolding remember
remember_twice s key now later h =
    elim (Bool-cases (is_live (find key (purge now s.entries)) now)) [
      | inl live ↦ ground arith
      | inr fresh ↦ ground (
        arith,
        purge-store_new key (now + seconds s.ttl) later (purge now s.entries)
            (purged_none key now s.entries fresh),
      )
    ]

purge_keeps :
    (k : Text) (now : Instant) (t : Table Instant) (e : Instant)
    → find k t ≡ some e
    → now < e
    → find k (purge now t) ≡ some e
unfolding purge find
purge_keeps k now [] e h l = cc
purge_keeps k now ((j, x) ∷ t) e h l = ground (arith, purge_keeps k now t e)

purge_fresh :
    (k : Text) (now : Instant) (t : Table Instant)
    → is_live (find k (purge now t)) now ≡ false
    → is_live (find k t) now ≡ false
purge_fresh k now t h = elim (Option-cases (find k t)) [
  | inl e ↦ rw e refl
  | inr (x, e) ↦ ground (arith, purge_keeps k now t x e)
]

-- What a use of a nonce does: the nonce was not held, it is held for the store's time to live from
-- now on, and every other nonce that is held stays held as long as it was.
pub record IsRemembered (before after : NonceStore) (key : Text) (now : Instant) : Type 0 where
  pub fresh : is_live (find key before.entries) now ≡ false
  pub held : find key after.entries ≡ some (now + seconds before.ttl)
  pub others :
      (k : Text) (e : Instant)
      → find k before.entries ≡ some e
      → now < e
      → find k after.entries ≡ some e
  pub ttl_kept : after.ttl ≡ before.ttl

-- A nonce that is held stays held while its time has not come, whatever other use is made.
pub remember-held :
    (s : NonceStore) (key k : Text) (now e : Instant)
    → find k s.entries ≡ some e
    → now < e
    → find k (remember s key now).0.entries ≡ some e
unfolding remember
remember-held s key k now e h l =
    let kept = purge_keeps k now s.entries e h l in
    elim (Bool-cases (is_live (find key (purge now s.entries)) now)) [
      | inl live ↦ ground (arith, kept, live)
      | inr gone ↦ elim (Bool-cases (text_eq key k)) [
        | inl same ↦
            let gone_k : is_live (find k (purge now s.entries)) now ≡ false =
              rw (sym (text_eq_sound key k same)) gone in
            ground (arith, kept, gone_k)
        | inr other ↦
            ground (
              arith,
              kept,
              gone,
              find-store key k (now + seconds s.ttl) (purge now s.entries),
              other,
            )
      ]
    ]

-- The nonce of the key is not accepted while it is held.
pub held_refused :
    (s : NonceStore) (key : Text) (now e : Instant)
    → find key s.entries ≡ some e
    → now < e
    → (remember s key now).1 ≡ false
unfolding remember
held_refused s key now e h l =
    let kept = purge_keeps key now s.entries e h l in ground (arith, kept)

pub remember-IsRemembered :
    (s : NonceStore) (key : Text) (now : Instant)
    → (remember s key now).1 ≡ true
    → IsRemembered s (remember s key now).0 key now
unfolding remember
remember-IsRemembered s key now h =
    elim (Bool-cases (is_live (find key (purge now s.entries)) now)) [
      | inl live ↦ ground arith
      | inr gone ↦ record {
        fresh = purge_fresh key now s.entries gone;
        held = ground (
          arith,
          gone,
          text_eq_refl key,
          find-store key key (now + seconds s.ttl) (purge now s.entries),
        );
        others = λ k e g l. remember-held s key k now e g l;
        ttl_kept = ground (arith, gone);
      }
    ]
