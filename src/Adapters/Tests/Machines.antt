-- ===== src/Adapters/Tests/Machines.antt =====
-- packages/adapters/bare-metal: two nodes, and a host that answers from the third attempt on.
use sandstorm_monorepo.Common.{
  ℕ, suc, ◌≤◌, ◌<◌, String, false, none, some, List, [], ◌∷◌, ◌≡◌, refl, ◌⊎◌, ◌↔◌, if◌then◌else◌,
  ltb, length,
}
use sandstorm_monorepo.Common.Number.{micro}
use sandstorm_monorepo.Common.Io.{thrown, returned, error_of}
use sandstorm_monorepo.Common.Io.Logic.{Ends}
use sandstorm_monorepo.Adapters.BareMetal.{ImageBuilder, run}
use sandstorm_monorepo.Adapters.BareMetal.Nodes.{
  BareMetalNode, BareMetalConfig, NodeStatus, available, running, new_provider, available_nodes,
}
use sandstorm_monorepo.Adapters.BareMetal.Machine.{Ssh, BareMetalWorld, wait_for_node}
use sandstorm_monorepo.Adapters.BareMetal.Untouched.{NodesAre}
use sandstorm_monorepo.Adapters.BareMetal.Claims.{Claimed, run-claims, run-exhausts}
use sandstorm_monorepo.Adapters.BareMetal.Waits.{after, OnlineAt, wait_for_node-ends}
use sandstorm_monorepo.Adapters.Tests.{digits, stamp, one_file}

abbrev node_of : String → NodeStatus → BareMetalNode ℕ
node_of id status = record {
  id = id;
  ip_address = "10.0.0.1";
  mac_address = "00";
  hostname = id;
  status = status;
  bootc_hash = none;
  specs = record { cpu = 8000000; memory = 4096000000; disk = 0; gpu = false; gpu_type = none };
}

abbrev config : BareMetalConfig ℕ
config = record {
  nodes = node_of "n1" running ∷ node_of "n2" available ∷ [];
  bootc_registry = "registry";
  ssh_config = record { username = "root"; private_key = none; password = none; port = none };
  ipxe_server_url = "http://ipxe";
  snapshot_storage_path = "/snapshots";
}

abbrev nodes : List (String × BareMetalNode ℕ)
nodes = ("n1", node_of "n1" running) ∷ ("n2", node_of "n2" available) ∷ []

-- The state counts the attempts.
abbrev ssh : Ssh ℕ ℕ
ssh = record {
  connect = λ login r. (if ltb r 2 then thrown (error_of "timed out") else returned tt, suc r);
  dispose = λ r. (returned tt, r);
  exec_command = λ c r. (returned (record { stdout = "1"; stderr = ""; code = some 0 }), r);
}

abbrev builder : ImageBuilder ℕ
builder = record {
  build_image = λ request r. (returned "h1", r);
  push_image = λ hash registry r. (returned hash, r);
}

run-claims_example :
    Ends
      (NodesAre ssh nodes)
      (run ssh builder stamp "1" one_file)
      (λ _. Claimed ssh builder nodes one_file)
      (λ w. NodesAre ssh nodes w ⊎ Claimed ssh builder nodes one_file w)
run-claims_example =
    run-claims ssh builder nodes one_file (refl, refl, (refl, refl, tt)) (refl, (refl, tt)) stamp
      "1"

run-exhausts_example :
    Ends
      (NodesAre ssh nodes)
      (run ssh builder stamp "1" one_file)
      (λ _ w. suc (length (available_nodes w.provider.active_nodes)) ≡ 1)
      (λ w. NodesAre ssh nodes w ⊎ Claimed ssh builder nodes one_file w)
run-exhausts_example =
    run-exhausts ssh builder nodes one_file (refl, refl, (refl, refl, tt)) (refl, (refl, tt)) stamp
      "1"

abbrev start : BareMetalWorld ssh
start = record { provider = new_provider config; remote = 0 }

wait_for_node-ends_example :
    ((j : ℕ) × (j ≤ 60)
      × ((wait_for_node ssh (node_of "n2" available) start).1
          ≡ after ssh (node_of "n2" available) j start))
    × (((wait_for_node ssh (node_of "n2" available) start).0 ≡ returned tt)
        ↔ ((k : ℕ) × (k < 60) × OnlineAt ssh (node_of "n2" available) k start))
wait_for_node-ends_example = wait_for_node-ends ssh (node_of "n2" available) start
