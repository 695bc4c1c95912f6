-- ===== src/ChainService/Pool.antt =====
-- chain_service.py: the pool of pending transactions, and the queries on the chain.
use blockchain_mapping_syste.Prelude.{
  ℕ, ◌%◌, Bool, false, ◌||◌, Option, none, some, List, [], ◌∷◌, ◌++◌, map, Bytes, bytes_eq, nat_beq,
  if◌then◌else◌, Result, ok, err, exception, unsigned_transaction, raise_if, or_raise,
  attribute_error,
}
use blockchain_mapping_syste.Prelude.Exec.{Exec, pure, lift, gets, modify, ◌>>=◌, ◌>>◌}
use blockchain_mapping_syste.Prelude.Dict.{Dict, has_key}
use blockchain_mapping_syste.Utils.{normalize_address}
use blockchain_mapping_syste.Balance.{Balance}
use blockchain_mapping_syste.Transaction.{Transaction, sender}
use blockchain_mapping_syste.Block.{Block}
use blockchain_mapping_syste.MapReply.{LocatorRecord, Info, servers, reply, to_bytes}
use blockchain_mapping_syste.Apply.{
  Platform, ChainState, is_unsigned, validate_transaction, read_balance,
}
use blockchain_mapping_syste.Chain.{Formats, Chain, add_block, txindex_key}

pub record Service (p : Platform) : Type 0 where
  pub chain : Chain p
  -- `transactions`
  pub pool : List Transaction

module _ (p : Platform) (f : Formats p) where
  abbrev pub on_chain : {A : Type 0} → Exec (Chain p) A → Exec (Service p) A
  on_chain m v = let (r, c) = m v.chain in (r, record v { chain = c })

  abbrev pub on_state : {A : Type 0} → Exec (ChainState p) A → Exec (Service p) A
  on_state m v =
      let (r, s) = m v.chain.state in (r, record v { chain = record v.chain { state = s } })

  unfoldable pub add_pending_transaction : Transaction → Exec (Service p) (Unit {0})
  add_pending_transaction tx = do
    on_state (validate_transaction p tx)
    from ← lift (sender p.tx_crypto tx)
    lift (raise_if (is_unsigned from) unsigned_transaction)
    modify (λ v. record v { pool = v.pool ++ tx ∷ [] })

  -- `tx in self.transactions`
  unfoldable pub in_list : Transaction → List Transaction → Bool
  in_list tx [] = false
  in_list tx (x ∷ l) = f.same_tx x tx || in_list tx l

  -- `l.remove(tx)`, which takes the first one out.
  unfoldable pub remove_first : Transaction → List Transaction → List Transaction
  remove_first tx [] = []
  remove_first tx (x ∷ l) = if f.same_tx x tx then l else x ∷ remove_first tx l

  -- The loops that remove each transaction of a list; a transaction that is not there stays out.
  unfoldable pub remove_each : List Transaction → List Transaction → List Transaction
  unfolding remove_first
  remove_each [] pool = pool
  remove_each (tx ∷ txs) pool = remove_each txs (remove_first tx pool)

  -- The afi that the transactions of a block of this number must have.
  abbrev pub afi_of_number : ℕ → ℕ
  afi_of_number number = if nat_beq (number % 2) 0 then 1 else 2

  -- The first loops of `add_block`.
  unfoldable pub check_afi : ℕ → List Transaction → Result (Unit {0})
  check_afi number [] = ok tt
  check_afi number (tx ∷ txs) =
      if nat_beq tx.afi (afi_of_number number) then check_afi number txs else err exception

  -- The loop that collects the transactions that are not valid any more.
  unfoldable pub collect_invalid : List Transaction → ChainState p → List Transaction × ChainState p
  collect_invalid [] s = ([], s)
  collect_invalid (tx ∷ txs) s =
      let (r, s') = validate_transaction p tx s in
      let (bad, s'') = collect_invalid txs s' in
      elim r [ ok _ ↦ (bad, s'') | err _ ↦ (tx ∷ bad, s'') ]

  unfoldable pub purge_pool : Service p → Service p
  unfolding collect_invalid remove_each
  purge_pool v =
      let (bad, s) = collect_invalid v.pool v.chain.state in
      record v { chain = record v.chain { state = s }; pool = remove_each bad v.pool }

  -- What `chain.add_block` returns is not looked at.
  unfoldable pub service_add_block : ℕ → ℕ → Block → Exec (Service p) (Unit {0})
  unfolding check_afi remove_each purge_pool
  service_add_block depth now b = do
    lift (check_afi b.header.number b.transactions)
    on_chain (add_block p f depth now b)
    modify (λ v. record v { pool = remove_each b.transactions v.pool })
    modify purge_pool

  unfoldable pub in_chain : Transaction → Service p → Bool
  in_chain tx v = has_key (txindex_key (p.tx_crypto.hash tx)) v.chain.db

  unfoldable pub in_pool : Transaction → Service p → Bool
  unfolding in_list
  in_pool tx v = in_list tx v.pool

  -- `get_own_ips` and the other four, each a field of the balance; the first call is for its checks.
  unfoldable pub get_field : {A : Type 0} → (Balance p.netaddr → A) → Bytes → Exec (Service p) A
  get_field field address = do
    lift (normalize_address p.codec address false)
    b ← on_state (read_balance p address)
    pure (field b)

  -- The address that `get_value` finds for an IP address.
  unfoldable pub get_addr_from_ip : Bytes → Service p → Result Bytes
  get_addr_from_ip ipaddr v = elim (p.search_best v.chain.patricia ipaddr) [
    | none ↦ err attribute_error
    | some a ↦ normalize_address p.codec a false
  ]

  -- The locators of a balance, with the default fields of a `LocatorRecord`.
  unfoldable pub locator_records : Dict p.netaddr.Net (ℕ × ℕ) → List LocatorRecord
  locator_records [] = []
  locator_records ((key, (priority, weight)) ∷ d) =
      record {
        priority = priority;
        weight = weight;
        mpriority = 0;
        mweight = 0;
        unusedflags = 0;
        lpr = 0;
        locator = some (f.reply_net key);
      }
      ∷ locator_records d

  keys_of : {V : Type 0} → Dict p.netaddr.Net V → List p.netaddr.Net
  keys_of [] = []
  keys_of ((k, _) ∷ d) = k ∷ keys_of d

  -- What a balance answers, if anything.
  unfoldable pub answer_of : Bytes → Balance p.netaddr → Result (Option Info)
  unfolding locator_records keys_of
  answer_of ipaddr b = elim b.map_server [
    | _ ∷ _ ↦ ok (some (servers (map f.reply_net (keys_of b.map_server))))
    | [] ↦ elim b.locator [
      | [] ↦ ok none
      | _ ∷ _ ↦ elim (f.network_of ipaddr) [
        | none ↦ err exception
        | some eid ↦ ok (
            some (
              reply (record {
                ttl = 1440;
                action = 0;
                authoritative = false;
                map_version = 0;
                eid_prefix = eid;
                locator_records = locator_records b.locator;
              })))
      ]
    ]
  ]

  -- The body of the `try` of `query_eid`.
  unfoldable pub query_body : Bytes → ℕ → Exec (Service p) (Option Bytes)
  unfolding get_addr_from_ip answer_of
  query_body ipaddr nonce = do
    ip ← lift (or_raise (f.ip_text ipaddr) exception)
    v ← gets (λ v. v)
    address ← lift (get_addr_from_ip ip v)
    b ← on_state (read_balance p address)
    info ← lift (answer_of ipaddr b)
    elim info [
      | none ↦ pure none
      | some i ↦ lift (elim (to_bytes nonce i) [ err e ↦ err e | ok s ↦ ok (some s) ])
    ]

  -- `query_eid`, which catches every exception.
  unfoldable pub query_eid : Bytes → ℕ → Service p → Option Bytes × Service p
  unfolding query_body
  query_eid ipaddr nonce v =
      let (r, v') = query_body ipaddr nonce v in elim r [ ok a ↦ (a, v') | err _ ↦ (none, v') ]
