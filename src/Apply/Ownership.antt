-- ===== src/Apply/Ownership.antt =====
-- What the accounts own: an allocation moves the prefix from the sender to the recipient, and
-- nothing else moves anything.
use blockchain_mapping_syste.Prelude.{
  false, [], ◌∷◌, Bytes, bytes_eq, bytes_beq_sound, ◌==◌, ◌≡◌, ap, ◌∙◌, if◌then◌else◌, arith,
  Result, ok,
}
use blockchain_mapping_syste.Prelude.Dict.{Dict}
use blockchain_mapping_syste.Prelude.Hoare.{
  Ensures, Ensures->>=, Ensures-lift, Ensures-frame, Ensures-imp, Keeps-Ensures, Keeps-lift,
}
use blockchain_mapping_syste.Utils.{normalize_address}
use blockchain_mapping_syste.Balance.{
  Balance, add_own_ips, remove_own_ips, add_delegated_ips, remove_delegated_ips, add_received_ips,
  remove_received_ips,
}
use blockchain_mapping_syste.State.{set_attr, get_balance}
use blockchain_mapping_syste.State.Peek.{
  peek, peek-get_and_cache, account-get_and_cache, peek-set_balance, peek-increment_nonce,
}
use blockchain_mapping_syste.Apply.{
  Platform, ChainState, blank, at_address, read_balance, write_balance, bump_nonce, revoke,
  allocate, delegate, publish,
}

module _ (p : Platform) where
  abbrev pub put : Bytes → p.netaddr.IpSet → (Bytes → p.netaddr.IpSet) → Bytes → p.netaddr.IpSet
  put a ips o k = if a == k then ips else o k

  -- The state says that each account owns what `o` has for it.
  pub record Owns (o : Bytes → p.netaddr.IpSet) (s : ChainState p) : Type 0 where
    pub owns : (k : Bytes) → (peek p.trie (blank p) s k).balance.own_ips ≡ o k

  -- The balance `b` was read at `x`.
  pub record ReadAt (o : Bytes → p.netaddr.IpSet) (x : Bytes) (b : Balance p.netaddr) : Type 0 where
    pub address : Bytes
    pub is_address : normalize_address p.codec x false ≡ ok address
    pub own : b.own_ips ≡ o address

  remove_delegated_ips-own :
      (x : Bytes) (ips : p.netaddr.IpSet) (b b' : Balance p.netaddr)
      → remove_delegated_ips p.netaddr p.codec x ips b ≡ ok b'
      → b'.own_ips ≡ b.own_ips
  unfolding remove_delegated_ips
  remove_delegated_ips-own x ips b b' e = ground arith

  remove_received_ips-own :
      (x : Bytes) (ips : p.netaddr.IpSet) (b b' : Balance p.netaddr)
      → remove_received_ips p.netaddr p.codec x ips b ≡ ok b'
      → b'.own_ips ≡ b.own_ips
  unfolding remove_received_ips
  remove_received_ips-own x ips b b' e = ground arith

  add_delegated_ips-own :
      (x : Bytes) (ips : p.netaddr.Net) (b b' : Balance p.netaddr)
      → add_delegated_ips p.netaddr p.codec x ips b ≡ ok b'
      → b'.own_ips ≡ b.own_ips
  unfolding add_delegated_ips
  add_delegated_ips-own x ips b b' e = ground arith

  add_received_ips-own :
      (x : Bytes) (ips : p.netaddr.Net) (b b' : Balance p.netaddr)
      → add_received_ips p.netaddr p.codec x ips b ≡ ok b'
      → b'.own_ips ≡ b.own_ips
  unfolding add_received_ips
  add_received_ips-own x ips b b' e = ground arith

  module _ (o : Bytes → p.netaddr.IpSet) where
    pub reads : (x : Bytes) → Ensures (Owns o) (read_balance p x) (λ b s. ReadAt o x b × Owns o s)
    unfolding read_balance at_address get_balance
    reads x = Ensures->>= _ Ensures-lift (λ a. record {
      ensures = λ s (e, h) b q. (
        record {
          address = a;
          is_address = e;
          own =
              cc (
                ap (λ d. d.balance.own_ips) (account-get_and_cache p.trie (blank p) a s),
                h.owns a,
              );
        },
        record { owns = λ k. rw (peek-get_and_cache p.trie (blank p) a k s) (h.owns k) },
      );
    })

    writes :
        (x a : Bytes) (b : Balance p.netaddr)
        → normalize_address p.codec x false ≡ ok a
        → Ensures (Owns o) (write_balance p x b) (λ _. Owns (put a b.own_ips o))
    unfolding write_balance at_address set_attr
    writes x a b e = Ensures->>= _ Ensures-lift (λ a'. record {
      ensures = λ s (e', h) _ _.
          let same : a' ≡ a = cc in
          rw same (record {
            owns = λ k. rw (peek-set_balance p.trie (blank p) a k b s) (ground (arith, h.owns k));
          });
    })

    bumps : (x : Bytes) → Ensures (Owns o) (bump_nonce p x) (λ _. Owns o)
    unfolding bump_nonce at_address set_attr
    bumps x = Ensures->>= _ Ensures-lift (λ a. record {
      ensures = λ s (e, h) _ _. record {
        owns = λ k. rw (peek-increment_nonce p.trie (blank p) a k s) (ground (arith, h.owns k));
      };
    })

    put_same :
        (a : Bytes) (ips : p.netaddr.IpSet) (s : ChainState p)
        → ips ≡ o a
        → Owns (put a ips o) s
        → Owns o s
    put_same a ips s e h = record { owns = λ k. h.owns k ∙ ground (arith, bytes_beq_sound a k) }

    revoke-Owns :
        (from : Bytes) (affected : Dict Bytes p.netaddr.IpSet) (b : Balance p.netaddr)
        (v : p.netaddr.IpSet)
        → Ensures
            (λ s. (b.own_ips ≡ v) × Owns o s)
            (revoke p from affected b)
            (λ b' s. (b'.own_ips ≡ v) × Owns o s)
    unfolding revoke
    revoke-Owns from [] b v = record { ensures = λ s (e, h) b' q. (cc, h) }
    revoke-Owns from ((add, ips) ∷ affected) b v = Ensures->>= _ Ensures-lift (λ b'.
        Ensures->>= _ (Ensures-frame (Ensures-frame (reads add))) (λ r.
          Ensures->>= _ Ensures-lift (λ r'.
            Ensures->>= (λ _ s. (b'.own_ips ≡ v) × Owns o s)
              (record {
                ensures = λ s (e2, (e1, (hb, (at, h)))) u e. (
                  remove_delegated_ips-own add ips b b' e1 ∙ hb,
                  put_same at.address r'.own_ips _
                      (remove_received_ips-own from ips r r' e2 ∙ at.own)
                      ((writes add at.address r' at.is_address).ensures s h u e),
                );
              })
              (λ _. revoke-Owns from affected b' v))))

  -- What is owned once `value` has moved from `f` to `t`: the recipient's set is written before the
  -- sender's.
  abbrev pub moved :
      p.netaddr.Net → Bytes → Bytes → (Bytes → p.netaddr.IpSet) → Bytes → p.netaddr.IpSet
  moved value f t o = put f (p.netaddr.remove (o f) value) (put t (p.netaddr.add (o t) value) o)

  module _ (o : Bytes → p.netaddr.IpSet) (from to f t : Bytes) (value : p.netaddr.Net)
      (ef : normalize_address p.codec from false ≡ ok f)
      (et : normalize_address p.codec to false ≡ ok t) where
    at_to : Bytes → p.netaddr.IpSet
    at_to = put t (p.netaddr.add (o t) value) o

    read_at :
        (x a : Bytes) (b : Balance p.netaddr)
        → normalize_address p.codec x false ≡ ok a
        → ReadAt o x b
        → b.own_ips ≡ o a
    read_at x a b e r = let same : r.address ≡ a = cc (e, r.is_address) in r.own ∙ ap o same

    reads_at :
        (x a : Bytes)
        → normalize_address p.codec x false ≡ ok a
        → Ensures (Owns o) (read_balance p x) (λ b s. (b.own_ips ≡ o a) × Owns o s)
    reads_at x a e = Ensures-imp (λ _ h. h) (reads o x) (λ b s (r, h). (read_at x a b e r, h))

    write_to :
        (c : Balance p.netaddr)
        → c.own_ips ≡ o t
        → Ensures (Owns o) (write_balance p to (add_own_ips p.netaddr value c)) (λ _. Owns at_to)
    unfolding add_own_ips at_to
    write_to c e = Ensures-imp (λ _ h. h) (writes o to t _ et) (λ _ s h. rw e at h)

    write_from :
        (b : Balance p.netaddr)
        → b.own_ips ≡ o f
        → Ensures
            (Owns at_to)
            (write_balance p from (remove_own_ips p.netaddr value b))
            (λ _. Owns (moved value f t o))
    unfolding remove_own_ips at_to
    write_from b e = Ensures-imp (λ _ h. h) (writes at_to from f _ ef) (λ _ s h. rw e at h)

    pub allocated : Ensures (Owns o) (allocate p from to value) (λ _. Owns (moved value f t o))
    unfolding allocate
    allocated = Ensures->>= _ (reads_at from f ef) (λ b.
        Ensures->>= _ (Keeps-Ensures Keeps-lift) (λ affected.
          Ensures->>= _ (revoke-Owns o from affected b (o f)) (λ b'.
            Ensures->>= _ (Ensures-frame (reads_at to t et)) (λ c.
              Ensures->>= (λ _ s. (b'.own_ips ≡ o f) × Owns at_to s)
                (record { ensures = λ s (hb, (hc, h)) u e. (hb, (write_to c hc).ensures s h u e) })
                (λ _.
                  Ensures->>= (λ _. Owns (moved value f t o))
                    (record { ensures = λ s (hb, h) u e. (write_from b' hb).ensures s h u e })
                    (λ _. bumps (moved value f t o) from))))))

    pub delegated : Ensures (Owns o) (delegate p from to value) (λ _. Owns o)
    unfolding delegate
    delegated = Ensures->>= _ (reads_at from f ef) (λ b.
        Ensures->>= _ (Keeps-Ensures Keeps-lift) (λ affected.
          Ensures->>= _ (revoke-Owns o from affected b (o f)) (λ b'.
            Ensures->>= _ (Ensures-frame (reads_at to t et)) (λ c. Ensures->>= _ Ensures-lift (λ c'.
              Ensures->>= _ Ensures-lift (λ b''.
                Ensures->>= (λ _ s. (b''.own_ips ≡ o f) × Owns o s)
                  (record {
                    ensures = λ s (e2, (e1, (hb, (hc, h)))) u e. (
                      add_delegated_ips-own to value b' b'' e2 ∙ hb,
                      put_same o t c'.own_ips _ (add_received_ips-own from value c c' e1 ∙ hc)
                          ((writes o to t c' et).ensures s h u e),
                    );
                  })
                  (λ _.
                    Ensures->>= (λ _. Owns o)
                      (record {
                        ensures = λ s (hb, h) u e.
                            put_same o f b''.own_ips _ hb
                              ((writes o from f b'' ef).ensures s h u e);
                      })
                      (λ _. bumps o from))))))))

  pub published :
      (o : Bytes → p.netaddr.IpSet) (from : Bytes)
      (set : Balance p.netaddr → Result (Balance p.netaddr))
      → ((b b' : Balance p.netaddr) → set b ≡ ok b' → b'.own_ips ≡ b.own_ips)
      → Ensures (Owns o) (publish p from set) (λ _. Owns o)
  unfolding publish
  published o from set k = Ensures->>= _ (reads o from) (λ b. Ensures->>= _ Ensures-lift (λ b'.
      Ensures->>= (λ _. Owns o)
        (record {
          ensures = λ s (e, (r, h)) u q.
              put_same o r.address b'.own_ips _ (k b b' e ∙ r.own)
                ((writes o from r.address b' r.is_address).ensures s h u q);
        })
        (λ _. bumps o from)))
