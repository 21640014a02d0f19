-- ===== src/Environment.antt =====
-- What the programs use and do not implement, as one record of parameters: the hash functions and
-- the signature recovery of the runtime, the ABI codec of the `ethabi` crate, the UTF-8 check, the
-- constants that the build chooses, and the call of another program. Nothing is assumed of them
-- here; a theorem that relies on documented behaviour names it as a hypothesis.
use photon_solana_contracts.Prelude.{ℕ, Bool, Option, List, Bytes}

-- The cargo feature that the program was built with.
pub data Network : Type 0 where
  devnet localnet mainnet : Network

-- An account of an instruction, with its rights.
pub record AccountMeta : Type 0 where
  pub key : Bytes
  pub is_signer : Bool
  pub is_writable : Bool

-- `solana_program::instruction::Instruction`
pub record CpiInstruction : Type 0 where
  pub program_id : Bytes
  pub metas : List AccountMeta
  pub ix_data : Bytes

-- `ethabi`: tokens, parameter types, and the codec.
pub record EthAbi : Type 1 where
  pub Token : Type 0
  pub ParamType : Type 0
  pub fixed_bytes_type : ℕ → ParamType
  pub uint_type : ℕ → ParamType
  pub address_type : ParamType
  pub bytes_type : ParamType
  pub array_type : ParamType → ParamType
  pub tuple_type : List ParamType → ParamType
  pub into_tuple : Token → Option (List Token)
  pub into_array : Token → Option (List Token)
  pub into_fixed_bytes : Token → Option Bytes
  pub into_bytes : Token → Option Bytes
  pub into_address : Token → Option Bytes
  pub into_uint : Token → Option ℕ
  pub fixed_bytes_token : Bytes → Token
  pub uint_token : ℕ → Token
  pub tuple_token : List Token → Token
  pub encode : List Token → Bytes
  pub decode : List ParamType → Bytes → Option (List Token)

pub record Environment : Type 1 where
  pub abi : EthAbi
  pub open abi use *
  -- `Keccak256::digest` and `solana_program::hash::hash`
  pub keccak256 : Bytes → Bytes
  pub sha256 : Bytes → Bytes
  -- message hash, recovery id, signature: the 64 bytes of the public key
  pub secp256k1_recover : Bytes → ℕ → Bytes → Option Bytes
  pub is_utf8 : Bytes → Bool
  -- `try_to_vec` of a struct whose fields are these byte vectors
  pub borsh : List Bytes → Bytes
  pub network : Network
  -- `photon::ID` and the parsed `DEPLOYER`
  pub photon_id : Bytes
  pub deployer : Bytes
  -- The derived address of a list of seeds (`Pubkey::find_program_address` at `photon::ID`).
  pub find_program_address : List Bytes → Bytes
  -- A call of a program other than the endpoint: `none` for success, or its error code. The runtime
  -- lets only the owner of an account write it, and refuses a call back into the endpoint.
  pub invoke : CpiInstruction → Option ℕ
