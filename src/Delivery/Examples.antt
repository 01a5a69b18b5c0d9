-- ===== src/Delivery/Examples.antt =====
-- A log that is delivered, and its removal.
use polymarket_cpp_client.Prelude.{true, false, [], codes}
use polymarket_cpp_client.EventLog.{EvmLog}

abbrev pub transfer : EvmLog
transfer = record {
  address = codes "0xc";
  block_hash = codes "0xb";
  block_number = codes "0x9";
  transaction_hash = codes "0xt";
  transaction_index = codes "0x1";
  log_index = codes "0x2";
  payload = [];
  topics = [];
  removed = false;
}

abbrev pub orphaned : EvmLog
orphaned = record transfer { removed = true }

abbrev pub other : EvmLog
other = record transfer { log_index = codes "0x3" }
