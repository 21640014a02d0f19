-- ===== src/Toy.antt =====
-- A concrete environment and a concrete system, on which the witnesses and tests run: hash functions
-- that keep the first bytes of their input, a recovery that takes the signature for the public key,
-- and a codec that hands out one list of tokens.
use photon_solana_contracts.Prelude.{
  ℕ, true, ◌++◌, Bytes, List, [], ◌∷◌, Option, none, some, replicate, take, map,
}
use photon_solana_contracts.Environment.{Environment, EthAbi, Network}
use photon_solana_contracts.Slots.Laws.{padded}
use photon_solana_contracts.ProtocolData.{
  Pubkey, EthAddress, default_pubkey, default_eth_address, gov_protocol_id, OperationData, by_code,
  TransmitterSignature,
}
use photon_solana_contracts.State.{System, ProtocolInfo, default_config, default_protocol_info}

-- A token is the list of its components.
abbrev pub ToyToken : Type 0
ToyToken = List Bytes

abbrev pub into_tuple : ToyToken → Option (List ToyToken)
into_tuple t = some (map (λ b. b ∷ []) t)

abbrev pub into_bytes : ToyToken → Option Bytes
into_bytes [] = none
into_bytes (b ∷ t) = some b

abbrev pub into_uint : ToyToken → Option ℕ
into_uint [] = none
into_uint ([] ∷ t) = none
into_uint ((n ∷ b) ∷ t) = some n

abbrev pub protocol_id : Bytes
protocol_id = replicate 32 7

-- The calldata are the key that an operation is about.
abbrev pub abi : EthAbi
abi = record {
  Token = ToyToken;
  ParamType = Unit {0};
  fixed_bytes_type = λ n. tt;
  uint_type = λ n. tt;
  address_type = tt;
  bytes_type = tt;
  array_type = λ t. tt;
  tuple_type = λ ts. tt;
  into_tuple = into_tuple;
  into_array = into_tuple;
  into_fixed_bytes = into_bytes;
  into_bytes = into_bytes;
  into_address = into_bytes;
  into_uint = into_uint;
  fixed_bytes_token = λ b. b ∷ [];
  uint_token = λ n. (n ∷ []) ∷ [];
  tuple_token = λ ts. [];
  encode = λ ts. [];
  decode = λ types calldata. some ((protocol_id ∷ calldata ∷ []) ∷ []);
}

abbrev pub env : Environment
env = record {
  abi = abi;
  keccak256 = λ b. take 32 (b ++ replicate 32 0);
  sha256 = λ b. take 32 (b ++ replicate 32 0);
  secp256k1_recover = λ message v signature. some signature;
  is_utf8 = λ b. true;
  borsh = λ fields. [];
  network = Network.localnet;
  photon_id = replicate 32 1;
  deployer = replicate 32 2;
  find_program_address = λ seeds. replicate 32 3;
  invoke = λ ix. none;
}

abbrev pub executor : Pubkey
executor = replicate 32 4

abbrev pub program : Pubkey
program = replicate 32 5

abbrev pub alice : EthAddress
alice = replicate 20 6

abbrev pub bob : EthAddress
bob = replicate 20 8

-- A protocol that lets alice and bob sign and asks for both.
abbrev pub info : ProtocolInfo
info = record default_protocol_info {
  is_init = true;
  consensus_target_rate = 10000;
  protocol_address = program;
  transmitter_slots = padded 20 default_eth_address (alice ∷ bob ∷ []);
  executor_slots = padded 20 default_pubkey (executor ∷ []);
}

abbrev pub gov_info : ProtocolInfo
gov_info = record info { protocol_address = env.photon_id }

abbrev pub initial : System
initial = record {
  config = some default_config;
  protocols = (gov_protocol_id, gov_info) ∷ (protocol_id, info) ∷ [];
  ops = [];
  events = [];
}

-- A call of the toy protocol.
abbrev pub call : OperationData
call = record {
  protocol_id = protocol_id;
  meta = replicate 32 0;
  src_chain_id = 1;
  src_block_number = 2;
  src_op_tx_id = [];
  nonce = 3;
  dest_chain_id = 100000000000000000000;
  protocol_addr = program;
  function_selector = by_code (1 ∷ 2 ∷ 3 ∷ 4 ∷ []);
  params = 9 ∷ 9 ∷ [];
  reserved = [];
}

abbrev pub signature_of : EthAddress → TransmitterSignature
signature_of a = record { v = 27; r = replicate 12 0 ++ a; s = replicate 32 0 }
