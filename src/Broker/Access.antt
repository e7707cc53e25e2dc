-- ===== src/Broker/Access.antt =====
-- src/broker.rs: `ClientAaa`, which says what a client of a server may do. The
-- access lists of the crate `submap` and IP networks are not part of the repository.
use elbus.Base.{
  ◌≡◌, refl, ◌∙◌, ap, arith, Bool, true, false, ◌||◌, Bytes, List, [], ◌∷◌, Option, none, some,
  if◌then◌else◌, eq_bytes, codes,
}
use elbus.Broker.Client.{has_name}

-- `AclMap`, with its separator, its wildcard and the sign that stands for any one part; and
-- `IpNetwork`. An access list with no masks in it matches nothing.
pub record Lists : Type 1 where
  pub Acl : Type 0
  pub acl_new : Acl
  pub acl_with : Bytes → Bytes → Bytes → Acl
  pub acl_insert : Acl → Bytes → Acl
  pub matches : Acl → Bytes → Bool
  pub matches-acl_new : (target : Bytes) → matches acl_new target ≡ false
  pub Network : Type 0
  pub Address : Type 0
  pub contains : Network → Address → Bool
  pub everywhere : Network
  pub show_address : Address → Bytes

module _ (A : Lists) where
  pub record ClientAaa : Type 0 where
    pub hosts_allow : List A.Network
    pub allow_p2p_to : A.Acl
    pub allow_p2p_any : Bool
    pub allow_publish_to : A.Acl
    pub allow_publish_any : Bool
    pub allow_subscribe_to : A.Acl
    pub allow_subscribe_any : Bool
    pub allow_broadcast_to : A.Acl
    pub allow_broadcast_any : Bool

  abbrev pub peers : A.Acl
  peers = A.acl_with (codes ".") (codes "*") (codes "?")

  abbrev pub topics : A.Acl
  topics = A.acl_with (codes "/") (codes "#") (codes "+")

  -- `ClientAaa::default`, which is also `new`
  abbrev pub aaa_new : ClientAaa
  aaa_new = record {
    hosts_allow = A.everywhere ∷ [];
    allow_p2p_to = peers;
    allow_p2p_any = true;
    allow_publish_to = topics;
    allow_publish_any = true;
    allow_subscribe_to = topics;
    allow_subscribe_any = true;
    allow_broadcast_to = peers;
    allow_broadcast_any = true;
  }

  abbrev pub hosts_allow : ClientAaa → List A.Network → ClientAaa
  hosts_allow a hosts = record a { hosts_allow = hosts }

  -- the loop over the masks: one that is the wildcard allows anything, and all of them are inserted
  unfoldable pub insert_masks : Bytes → List Bytes → A.Acl × Bool → A.Acl × Bool
  insert_masks wildcard [] s = s
  insert_masks wildcard (mask ∷ masks) (acl, any) =
      insert_masks wildcard masks
        (A.acl_insert acl mask, if eq_bytes mask wildcard then true else any)

  abbrev pub allow_p2p_to : ClientAaa → List Bytes → ClientAaa
  allow_p2p_to a masks =
      let s = insert_masks (codes "*") masks (a.allow_p2p_to, false) in
      record a { allow_p2p_to = s.0; allow_p2p_any = s.1 }

  abbrev pub deny_p2p : ClientAaa → ClientAaa
  deny_p2p a = record a { allow_p2p_to = A.acl_new; allow_p2p_any = false }

  abbrev pub allow_publish_to : ClientAaa → List Bytes → ClientAaa
  allow_publish_to a masks =
      let s = insert_masks (codes "#") masks (a.allow_publish_to, false) in
      record a { allow_publish_to = s.0; allow_publish_any = s.1 }

  abbrev pub deny_publish : ClientAaa → ClientAaa
  deny_publish a = record a { allow_publish_to = A.acl_new; allow_publish_any = false }

  abbrev pub allow_subscribe_to : ClientAaa → List Bytes → ClientAaa
  allow_subscribe_to a masks =
      let s = insert_masks (codes "#") masks (a.allow_subscribe_to, false) in
      record a { allow_subscribe_to = s.0; allow_subscribe_any = s.1 }

  abbrev pub deny_subscribe : ClientAaa → ClientAaa
  deny_subscribe a = record a { allow_subscribe_to = A.acl_new; allow_subscribe_any = false }

  abbrev pub allow_broadcast_to : ClientAaa → List Bytes → ClientAaa
  allow_broadcast_to a masks =
      let s = insert_masks (codes "*") masks (a.allow_broadcast_to, false) in
      record a { allow_broadcast_to = s.0; allow_broadcast_any = s.1 }

  abbrev pub deny_broadcast : ClientAaa → ClientAaa
  deny_broadcast a = record a { allow_broadcast_to = A.acl_new; allow_broadcast_any = false }

  any_contains : List A.Network → A.Address → Bool
  any_contains [] addr = false
  any_contains (h ∷ hs) addr =
      let rest = any_contains hs addr in if A.contains h addr then true else rest

  unfoldable pub connect_allowed : ClientAaa → A.Address → Bool
  unfolding any_contains
  connect_allowed a addr = any_contains a.hosts_allow addr

  -- What the reader of a connection asks, where there is a `ClientAaa` at all.
  unfoldable pub allowed :
      Option ClientAaa → (ClientAaa → Bool) → (ClientAaa → A.Acl) → Bytes → Bool
  allowed none any acl target = true
  allowed (some a) any acl target = any a || A.matches (acl a) target

  abbrev pub p2p_allowed : Option ClientAaa → Bytes → Bool
  p2p_allowed a = allowed a (λ c. c.allow_p2p_any) (λ c. c.allow_p2p_to)

  abbrev pub publish_allowed : Option ClientAaa → Bytes → Bool
  publish_allowed a = allowed a (λ c. c.allow_publish_any) (λ c. c.allow_publish_to)

  abbrev pub subscribe_allowed : Option ClientAaa → Bytes → Bool
  subscribe_allowed a = allowed a (λ c. c.allow_subscribe_any) (λ c. c.allow_subscribe_to)

  abbrev pub broadcast_allowed : Option ClientAaa → Bytes → Bool
  broadcast_allowed a = allowed a (λ c. c.allow_broadcast_any) (λ c. c.allow_broadcast_to)

  -- Denying point-to-point messages, publications, subscriptions or broadcasts leaves no target that
  -- is allowed for them.
  pub deny-allowed :
      (a : ClientAaa) (target : Bytes)
      → (p2p_allowed (some (deny_p2p a)) target ≡ false)
        × (publish_allowed (some (deny_publish a)) target ≡ false)
        × (subscribe_allowed (some (deny_subscribe a)) target ≡ false)
        × (broadcast_allowed (some (deny_broadcast a)) target ≡ false)
  unfolding allowed
  deny-allowed a target = let h = A.matches-acl_new target in (h, h, h, h)

  -- The list with all the masks in it.
  abbrev pub insert_all : A.Acl → List Bytes → A.Acl
  insert_all acl [] = acl
  insert_all acl (m ∷ ms) = insert_all (A.acl_insert acl m) ms

  insert_masks_lem :
      (wildcard : Bytes) (masks : List Bytes) (acl : A.Acl) (any : Bool)
      → insert_masks wildcard masks (acl, any)
        ≡ (insert_all acl masks, if has_name wildcard masks then true else any)
  unfolding insert_masks has_name
  insert_masks_lem wildcard [] acl any = refl
  insert_masks_lem wildcard (m ∷ ms) acl any =
      insert_masks_lem wildcard ms (A.acl_insert acl m) (if eq_bytes m wildcard then true else any)
      ∙ ap (λ (b : Bool). (insert_all (A.acl_insert acl m) ms, b)) (ground arith)

  -- What is allowed once masks are given.
  abbrev pub MaskRule : Bytes → List Bytes → A.Acl → Bytes → Bool → Type 0
  MaskRule wildcard masks acl target answer = answer ≡ (
      (if has_name wildcard masks then true else false) || A.matches (insert_all acl masks) target)

  -- Once masks are given for an operation, a target is allowed exactly if the bare wildcard is among
  -- them or the access list with all of them in it matches the target, whatever was allowed before.
  allow_to-allowed :
      (a : ClientAaa) (masks : List Bytes) (target : Bytes)
      → MaskRule
          (codes "*")
          masks
          a.allow_p2p_to
          target
          (p2p_allowed (some (allow_p2p_to a masks)) target)
        × MaskRule
            (codes "#")
            masks
            a.allow_publish_to
            target
            (publish_allowed (some (allow_publish_to a masks)) target)
        × MaskRule
            (codes "#")
            masks
            a.allow_subscribe_to
            target
            (subscribe_allowed (some (allow_subscribe_to a masks)) target)
        × MaskRule
            (codes "*")
            masks
            a.allow_broadcast_to
            target
            (broadcast_allowed (some (allow_broadcast_to a masks)) target)
  unfolding allowed
  allow_to-allowed a masks target = (
    rule (codes "*") a.allow_p2p_to,
    rule (codes "#") a.allow_publish_to,
    rule (codes "#") a.allow_subscribe_to,
    rule (codes "*") a.allow_broadcast_to,
  )
    where
      rule :
          (w : Bytes) (acl : A.Acl)
          → MaskRule w masks acl target (
              (insert_masks w masks (acl, false)).1
              || A.matches (insert_masks w masks (acl, false)).0 target)
      rule w acl =
          ap (λ (r : A.Acl × Bool). r.1 || A.matches r.0 target)
            (insert_masks_lem w masks acl false)
