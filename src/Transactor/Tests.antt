-- ===== src/Transactor/Tests.antt =====
-- A toy SDK, in which a message is its list of instructions and an instruction is a number.
use photon_solana_contracts.Prelude.{
  ℕ, ◌*◌, ◌<◌, arith, ◌≡◌, refl, List, [], ◌∷◌, Option, none, some, length,
}
use photon_solana_contracts.Transactor.SendAll.{
  InstructionBundle, compile_all, messages_of, AllCarry, messages_of-AllCarry,
}
use photon_solana_contracts.Transactor.RoundRobin.{RoundRobin}
use photon_solana_contracts.Transactor.IxCompiler.{
  Sdk, IxCompiler, done, new, compile, flush, place, message_of, exceeds_limits, approaches_limits,
  add_u32, get_ix_price_if_any,
}
use photon_solana_contracts.Transactor.SendAll.Units.{
  total_units, doubled_units, flush-doubled_units,
}

-- Every instruction takes 500 bytes.
abbrev sdk : Sdk
sdk = record {
  Ix = ℕ;
  Table = ℕ;
  Message = List ℕ;
  set_compute_unit_limit = λ n. n;
  set_compute_unit_price = λ n. n;
  try_compile = λ payer ixs tables. some ixs;
  serialized_length = λ m. length m * 500;
}

abbrev holding : IxCompiler sdk
holding = record {
  ix_buffer = 1 ∷ [];
  total_compute_units = 10;
  payer = [];
  tables = [];
  compute_units_price = none;
}

abbrev fresh : IxCompiler sdk
fresh = record {
  ix_buffer = [];
  total_compute_units = 0;
  payer = [];
  tables = [];
  compute_units_price = none;
}

abbrev refilled : IxCompiler sdk
refilled = record holding { ix_buffer = 2 ∷ []; total_compute_units = 20 }

abbrev bundles : List (InstructionBundle sdk)
bundles =
    record { instruction = 1; compute_units = 10 }
    ∷ record { instruction = 2; compute_units = 10 }
    ∷ record { instruction = 3; compute_units = 10 }
    ∷ []

abbrev sent_messages : List (List ℕ)
sent_messages = (10 ∷ 1 ∷ []) ∷ (10 ∷ 2 ∷ []) ∷ (10 ∷ 3 ∷ []) ∷ []

bundles_packed : messages_of sdk [] none [] bundles ≡ done sent_messages
unfolding messages_of compile_all new flush compile place message_of exceeds_limits
    approaches_limits add_u32 get_ix_price_if_any
bundles_packed = refl

messages_of-AllCarry_example : AllCarry sdk [] none sent_messages (1 ∷ 2 ∷ 3 ∷ [])
messages_of-AllCarry_example = messages_of-AllCarry sdk [] none [] bundles bundles_packed

-- Every instruction takes 100 bytes, so that all three are buffered.
abbrev roomy : Sdk
roomy = record sdk { serialized_length = λ m. length m * 100 }

abbrev roomy_bundles : List (InstructionBundle roomy)
roomy_bundles =
    record { instruction = 1; compute_units = 10 }
    ∷ record { instruction = 2; compute_units = 10 }
    ∷ record { instruction = 3; compute_units = 10 }
    ∷ []

abbrev three_buffered : IxCompiler roomy
three_buffered = record {
  ix_buffer = 1 ∷ 2 ∷ 3 ∷ [];
  total_compute_units = 70;
  payer = [];
  tables = [];
  compute_units_price = none;
}

abbrev emptied : IxCompiler roomy
emptied = record three_buffered { ix_buffer = []; total_compute_units = 0 }

roomy_buffered : compile_all roomy [] roomy_bundles (new roomy [] none) ≡ done ([], three_buffered)
unfolding compile_all new compile place message_of exceeds_limits approaches_limits add_u32
    get_ix_price_if_any
roomy_buffered = refl

-- Thirty units are needed, and seventy are asked for.
flush-doubled_units_example :
    (◌≡◌ {A = Option (List ℕ)} (some (70 ∷ 1 ∷ 2 ∷ 3 ∷ [])) (some (70 ∷ 1 ∷ 2 ∷ 3 ∷ [])))
    × (total_units roomy roomy_bundles < doubled_units roomy roomy_bundles)
unfolding flush message_of get_ix_price_if_any total_units doubled_units
flush-doubled_units_example =
    flush-doubled_units roomy [] none [] (record { instruction = 1; compute_units = 10 })
      (record { instruction = 2; compute_units = 10 })
      (record { instruction = 3; compute_units = 10 } ∷ []) three_buffered emptied
      (70 ∷ 1 ∷ 2 ∷ 3 ∷ []) roomy_buffered refl (omega arith)

abbrev pool : RoundRobin ℕ
pool = record { pool = 5 ∷ 9 ∷ 7 ∷ []; current_index = 2 }
