-- ===== src/Core/Config/Keys.antt =====
-- engine/src/hypernet/core/ConfigLoader.cpp: the names of the tables and of the keys.
use network_engine_portfolio.Prelude.{ℕ, List, [], ◌∷◌}

abbrev pub engine : ℕ
engine = 0

abbrev pub app : ℕ
app = 1

abbrev pub loadgen : ℕ
loadgen = 2

abbrev pub exchange_sim : ℕ
exchange_sim = 3

abbrev pub client : ℕ
client = 4

abbrev pub fep_gateway : ℕ
fep_gateway = 5

abbrev pub listen_port : ℕ
listen_port = 6

abbrev pub metrics_port : ℕ
metrics_port = 7

abbrev pub worker_threads : ℕ
worker_threads = 8

abbrev pub log_level : ℕ
log_level = 9

abbrev pub listen_address : ℕ
listen_address = 10

abbrev pub listen_backlog : ℕ
listen_backlog = 11

abbrev pub reuse_port : ℕ
reuse_port = 12

abbrev pub log_file_path : ℕ
log_file_path = 13

abbrev pub metrics_http_address : ℕ
metrics_http_address = 14

abbrev pub idle_timeout_ms : ℕ
idle_timeout_ms = 15

abbrev pub heartbeat_interval_ms : ℕ
heartbeat_interval_ms = 16

abbrev pub shutdown_drain_timeout_ms : ℕ
shutdown_drain_timeout_ms = 17

abbrev pub shutdown_poll_interval_ms : ℕ
shutdown_poll_interval_ms = 18

abbrev pub tick_resolution_ms : ℕ
tick_resolution_ms = 19

abbrev pub timer_slots : ℕ
timer_slots = 20

abbrev pub max_epoll_events : ℕ
max_epoll_events = 21

abbrev pub buffer_block_size : ℕ
buffer_block_size = 22

abbrev pub buffer_block_count : ℕ
buffer_block_count = 23

abbrev pub recv_ring_capacity : ℕ
recv_ring_capacity = 24

abbrev pub send_ring_capacity : ℕ
send_ring_capacity = 25

abbrev pub max_payload_len : ℕ
max_payload_len = 26

abbrev pub fep_host : ℕ
fep_host = 27

abbrev pub upstream_host : ℕ
upstream_host = 28

abbrev pub fep_port : ℕ
fep_port = 29

abbrev pub upstream_port : ℕ
upstream_port = 30

abbrev pub auto_scope : ℕ
auto_scope = 31

abbrev pub connection_count : ℕ
connection_count = 32

abbrev pub handoff_mode : ℕ
handoff_mode = 33

abbrev pub trace_word : List ℕ
trace_word = 116 ∷ 114 ∷ 97 ∷ 99 ∷ 101 ∷ []

abbrev pub debug_word : List ℕ
debug_word = 100 ∷ 101 ∷ 98 ∷ 117 ∷ 103 ∷ []

abbrev pub info_word : List ℕ
info_word = 105 ∷ 110 ∷ 102 ∷ 111 ∷ []

abbrev pub warn_word : List ℕ
warn_word = 119 ∷ 97 ∷ 114 ∷ 110 ∷ []

abbrev pub warning_word : List ℕ
warning_word = 119 ∷ 97 ∷ 114 ∷ 110 ∷ 105 ∷ 110 ∷ 103 ∷ []

abbrev pub error_word : List ℕ
error_word = 101 ∷ 114 ∷ 114 ∷ 111 ∷ 114 ∷ []

abbrev pub fatal_word : List ℕ
fatal_word = 102 ∷ 97 ∷ 116 ∷ 97 ∷ 108 ∷ []

abbrev pub config_flag : List ℕ
config_flag = 45 ∷ 45 ∷ 99 ∷ 111 ∷ 110 ∷ 102 ∷ 105 ∷ 103 ∷ []

abbrev pub config_letter : List ℕ
config_letter = 45 ∷ 99 ∷ []
