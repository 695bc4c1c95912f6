-- ===== src/Node.antt =====
-- blockchaincba.py: the main loop of the node. An error of a step is one that stops the program.
mod Local
mod Blocks
mod Signing
mod Transactions
mod Shares
mod KeyGeneration
mod Bootstrap
mod Turn
pub mod Flags
pub mod Rounds
pub mod Groups
pub mod Running
pub mod Signers
pub mod Checking
pub mod Looking
pub mod Waiting
pub mod Bootstrapping
pub use Local.*
unfoldable pub use Blocks.{
  signer_of_group, after_dkg, outside_dkg, during_dkg, choose_signer, verify_signer, check_block,
  send_shares, share_round, next_signer_round, leave_bootstrap, accept_block, receive_block,
  receive_blocks,
}
pub use Blocks.{is_skipped}
pub use Signing.{proposal_of}
unfoldable pub use Signing.{
  read_head, find_signer, produce_block, produce_if_own, at_block_time, sign_next_block,
}
unfoldable pub use Transactions.{
  offer, receive_tx, receive_txs, parse_transaction, offer_entry, user_round, user_turn,
  answer_query, blocks_of, answer_blocks, answer_pool,
}
unfoldable pub use Shares.{
  count_share, place_share, receive_share, receive_shares, serve_share, future_shares, share_turn,
  watch_time,
}
pub use KeyGeneration.{no_dkg_label, digest_of}
unfoldable pub use KeyGeneration.{
  find_me_in_dkg_group, finished, leave_if_finished, send_dkg_shares, pick, join_group, start_dkg,
  trigger_dkg, take_dkg_share, receive_dkg_share, receive_dkg_shares, collect_dkg,
}
pub use Bootstrap.{is_passed_over}
unfoldable pub use Bootstrap.{
  group_signer, verify_proof, bootstrap_check, bootstrap_accept, bootstrap_block, perform_bootstrap,
}
pub use Turn.{Inputs, Left, Reaches, started, turned}
unfoldable pub use Turn.{enter_loop, start, turn}
