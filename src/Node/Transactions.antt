-- ===== src/Node/Transactions.antt =====
-- blockchaincba.py: the transactions of the network and of the user, and the answers to queries.
use blockchain_mapping_syste.Prelude.{
  ℕ, suc, Bool, true, false, not, ◌&&◌, ◌||◌, Option, none, some, List, [], ◌∷◌, Bytes, bytes_eq,
  ltb, nat_beq, Result, ok, err, exception, type_error, or_raise, if◌then◌else◌,
}
use blockchain_mapping_syste.Prelude.Exec.{Exec, pure, lift, call, ◌>>=◌, ◌>>◌}
use blockchain_mapping_syste.Prelude.Dict.{lookup}
use blockchain_mapping_syste.Utils.{str}
use blockchain_mapping_syste.Block.{Block}
use blockchain_mapping_syste.Transaction.{Transaction, make, sign}
use blockchain_mapping_syste.Apply.{Platform, read_nonce}
use blockchain_mapping_syste.Chain.{get_block_by_number}
use blockchain_mapping_syste.ChainService.{
  Service, on_state, add_pending_transaction, in_chain, in_pool, query_eid,
}
use blockchain_mapping_syste.User.{Entry, get_tx}
use blockchain_mapping_syste.Node.Local.{
  Config, Packages, Node, tx_sent, blocks_answered, pool_answered, query_answered, on_service, send,
  self, attempt,
}

module _ (p : Platform) (k : Packages p) where
  -- The `try` around `add_pending_transaction` and the broadcast.
  unfoldable pub offer : Transaction → Exec (Node p) (Unit {0})
  offer tx = do on_service p (add_pending_transaction p k.formats tx); send p (tx_sent tx)

  unfoldable pub receive_tx : Transaction → Exec (Node p) (Unit {0})
  unfolding offer
  receive_tx tx n =
      (if in_chain p k.formats tx n.service || in_pool p k.formats tx n.service
          then pure tt
          else attempt p (offer tx))
        n

  -- The loop over the queue of the network; what it leaves is returned. At least one transaction is
  -- taken, whatever the limit.
  unfoldable pub receive_txs : ℕ → ℕ → List Transaction → Exec (Node p) (List Transaction)
  unfolding receive_tx
  receive_txs limit processed [] = pure []
  receive_txs limit processed (tx ∷ l) = do
    receive_tx tx
    if ltb (suc processed) limit then receive_txs limit (suc processed) l else pure l

  -- `chain.parse_transaction`
  unfoldable pub parse_transaction : ℕ → Entry → Exec (Service p) Transaction
  parse_transaction now e = do
    nonce ← on_state p k.formats (read_nonce p e.from)
    lift (make p.codec k.ipaddr nonce e.category (str e.to) e.afi e.value e.metadata now 0 0 0)

  -- The inner `try` for one transaction of the user.
  unfoldable pub offer_entry : ℕ → Entry → Exec (Node p) (Unit {0})
  unfolding parse_transaction offer
  offer_entry now e = do
    n ← self p
    key ← lift (or_raise (lookup e.from n.keys) exception)
    tx ← on_service p (parse_transaction now e)
    signed ← lift (sign p.tx_crypto key none tx)
    offer signed

  unfoldable pub user_round : ℕ → Exec (Node p) (Unit {0})
  unfolding offer_entry
  user_round now n =
      let (tx, l) = get_tx n.user in
      elim tx [
        | none ↦ (ok tt, record n { user = l })
        | some e ↦ attempt p (offer_entry now e) (record n { user = l; user_tx_count = 0 })
      ]

  -- The transactions of the user, one in so many turns.
  unfoldable pub user_turn : Config → ℕ → Exec (Node p) (Unit {0})
  unfolding user_round
  user_turn g now n =
      if (ltb g.first_tx_time now || g.is_master) && not n.dkg_on
      then if nat_beq (suc n.user_tx_count) g.loops_per_tx
        then user_round now n
        else (ok tt, record n { user_tx_count = suc n.user_tx_count })
      else (ok tt, n)

  -- A query of OOR, if it is complete: the address and the nonce. `sendto(None)` raises, which stops
  -- the program.
  unfoldable pub answer_query : Option (Bytes × ℕ) → Exec (Node p) (Unit {0})
  answer_query none = pure tt
  answer_query (some (address, nonce)) = do
    info ← on_service p (call (query_eid p k.formats address nonce))
    answer ← lift (or_raise info type_error)
    send p (query_answered answer)

  unfoldable pub blocks_of : List ℕ → Service p → Result (List Block)
  blocks_of [] v = ok []
  blocks_of (number ∷ l) v =
      let rest = blocks_of l v in
      elim (get_block_by_number p k.formats number v.chain) [
        | err e ↦ err e
        | ok b ↦ elim rest [ err e ↦ err e | ok bs ↦ ok (b ∷ bs) ]
      ]

  unfoldable pub answer_blocks : Option (List ℕ) → Exec (Node p) (Unit {0})
  unfolding blocks_of
  answer_blocks none = pure tt
  answer_blocks (some numbers) = do
    n ← self p
    l ← lift (blocks_of numbers n.service)
    send p (blocks_answered l)

  unfoldable pub answer_pool : Bool → Exec (Node p) (Unit {0})
  answer_pool false = pure tt
  answer_pool true = do n ← self p; send p (pool_answered n.service.pool)
