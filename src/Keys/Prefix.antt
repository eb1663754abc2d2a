-- ===== src/Keys/Prefix.antt =====
-- `RootPrefix` and `UserPostfix` of src/storage/constants.rs, and `StateContext` of
-- src/hyper/mod.rs, which moves user data to a shadow key space.
use hypersnap.Shared.{ℕ, Bool, true, false, if◌then◌else◌}

pub data RootPrefix : Type 0 where
  block shard user casts_by_parent casts_by_mention links_by_target : RootPrefix
  reactions_by_target merkle_trie_node hub_events f_name_user_name_proof : RootPrefix
  on_chain_event db_schema_version verification_by_address : RootPrefix
  f_name_user_name_proof_by_fid user_name_proof_by_name node_local_state : RootPrefix
  block_index block_event merkle_trie_metadata replication_bootstrap_status : RootPrefix
  lend_storage_by_recipient gasless_key : RootPrefix
  hyper_user hyper_casts_by_parent hyper_casts_by_mention hyper_links_by_target : RootPrefix
  hyper_reactions_by_target hyper_verification_by_address : RootPrefix
  hyper_user_name_proof_by_name hyper_lend_storage_by_recipient : RootPrefix

-- `prefix as u8`
abbrev pub root_u8 : RootPrefix → ℕ
root_u8 block = 1
root_u8 shard = 2
root_u8 user = 3
root_u8 casts_by_parent = 4
root_u8 casts_by_mention = 5
root_u8 links_by_target = 6
root_u8 reactions_by_target = 7
root_u8 merkle_trie_node = 8
root_u8 hub_events = 9
root_u8 f_name_user_name_proof = 11
root_u8 on_chain_event = 12
root_u8 db_schema_version = 13
root_u8 verification_by_address = 14
root_u8 f_name_user_name_proof_by_fid = 15
root_u8 user_name_proof_by_name = 16
root_u8 node_local_state = 17
root_u8 block_index = 18
root_u8 block_event = 19
root_u8 merkle_trie_metadata = 20
root_u8 replication_bootstrap_status = 21
root_u8 lend_storage_by_recipient = 22
root_u8 gasless_key = 23
root_u8 hyper_user = 30
root_u8 hyper_casts_by_parent = 31
root_u8 hyper_casts_by_mention = 32
root_u8 hyper_links_by_target = 33
root_u8 hyper_reactions_by_target = 34
root_u8 hyper_verification_by_address = 35
root_u8 hyper_user_name_proof_by_name = 36
root_u8 hyper_lend_storage_by_recipient = 37

pub data UserPostfix : Type 0 where
  cast_message link_message reaction_message verification_message : UserPostfix
  user_data_message username_proof_message lend_storage_message : UserPostfix
  cast_adds cast_removes link_adds link_removes reaction_adds reaction_removes : UserPostfix
  verification_adds verification_removes user_data_adds user_name_proof_adds : UserPostfix
  link_compact_state_message lend_storages gasless_key_user_nonce : UserPostfix
  gasless_key_app_nonce gasless_key_last_used_at gasless_key_by_fid : UserPostfix
  gasless_key_by_public_key gasless_key_count_by_fid : UserPostfix

-- `UserPostfix::as_u8`
abbrev pub postfix_u8 : UserPostfix → ℕ
postfix_u8 cast_message = 1
postfix_u8 link_message = 2
postfix_u8 reaction_message = 3
postfix_u8 verification_message = 4
postfix_u8 user_data_message = 6
postfix_u8 username_proof_message = 7
postfix_u8 lend_storage_message = 8
postfix_u8 cast_adds = 87
postfix_u8 cast_removes = 88
postfix_u8 link_adds = 89
postfix_u8 link_removes = 90
postfix_u8 reaction_adds = 91
postfix_u8 reaction_removes = 92
postfix_u8 verification_adds = 93
postfix_u8 verification_removes = 94
postfix_u8 user_data_adds = 97
postfix_u8 user_name_proof_adds = 99
postfix_u8 link_compact_state_message = 100
postfix_u8 lend_storages = 101
postfix_u8 gasless_key_user_nonce = 102
postfix_u8 gasless_key_app_nonce = 103
postfix_u8 gasless_key_last_used_at = 104
postfix_u8 gasless_key_by_fid = 105
postfix_u8 gasless_key_by_public_key = 106
postfix_u8 gasless_key_count_by_fid = 107

pub data StateContext : Type 0 where
  legacy hyper : StateContext

unfoldable pub allows_pruning : StateContext → Bool
allows_pruning legacy = true
allows_pruning hyper = false

unfoldable pub is_hyper : StateContext → Bool
is_hyper legacy = false
is_hyper hyper = true

-- The `match` of `root_prefix`.
unfoldable pub shadow_prefix : RootPrefix → ℕ
shadow_prefix user = root_u8 hyper_user
shadow_prefix casts_by_parent = root_u8 hyper_casts_by_parent
shadow_prefix casts_by_mention = root_u8 hyper_casts_by_mention
shadow_prefix links_by_target = root_u8 hyper_links_by_target
shadow_prefix reactions_by_target = root_u8 hyper_reactions_by_target
shadow_prefix verification_by_address = root_u8 hyper_verification_by_address
shadow_prefix user_name_proof_by_name = root_u8 hyper_user_name_proof_by_name
shadow_prefix lend_storage_by_recipient = root_u8 hyper_lend_storage_by_recipient
shadow_prefix other = root_u8 other

unfoldable pub root_prefix : StateContext → RootPrefix → ℕ
unfolding is_hyper shadow_prefix
root_prefix ctx prefix = if is_hyper ctx then shadow_prefix prefix else root_u8 prefix
