-- ===== src/Tests/UdpClient.antt =====
-- rbench-udp.cpp: the theorems on the client as a step relation, on one thread.
use r_bench_an_interference.Base.{true}
use r_bench_an_interference.Base.Int.{negsuc}
use r_bench_an_interference.Udp.System.{update}
use r_bench_an_interference.Udp.Client.{running, ClientState, initial_client}

abbrev started : ClientState
started = record initial_client { started = 1 }

abbrev told_ready : ClientState
told_ready = record started {
  phase = update started.phase 0 (running 0);
  conns = update started.conns 0 (negsuc 8);
}

abbrev runs : ClientState
runs = record told_ready { waited = true }
