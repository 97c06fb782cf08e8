-- ===== src/Cloudspaces/Tests.antt =====
-- A grid with one stack and one pool, in which cloudspaces are created, deployed and deleted.
use openvcloud.Prelude.{
  ℕ, suc, ◌+◌, ◌*◌, ◌≤◌, ◌≡◌, refl, true, false, none, some, List, [], ◌∷◌, ◌==◌, any, sum, arith,
}
use openvcloud.Result.{ok, err, python_error, is_ok}
use openvcloud.Models.{
  Account, AccountStatus, Cloudspace, CloudspaceStatus, ExternalNetwork, Stack, StackStatus, Models,
  Limits,
}
use openvcloud.Firewall.{Cloud, get_vfw_object, deployed}
use openvcloud.Limits.{account_of, fill_resource_limits, validate_available, reserved}
use openvcloud.Limits.Change.{list_active_cloudspaces}
use openvcloud.Scheduling.{
  get_best_provider, get_capacity_info, loads, serves, sort, insert, used_memory,
}
use openvcloud.Pools.{
  get_external_ip_address, first_free, take_first, take_ip, pull, get_free_network_id,
  take_first_id, set_networkids, release_network_id, release_external_ip_address, add_to_set,
}
use openvcloud.Cloudspaces.{
  deploy, claim, claim_if, deploy_claimed, address_of, finish_deploy, delete, is_deploying,
}
use openvcloud.Cloudspaces.Create.{Order, create, check_order, give_address, add_cloudspace}
use openvcloud.Cloudspaces.Network.{
  Jobs, on_models, fw_create, store_vfw, finish_create, fw_destroy, fw_delete, release_resources,
  remove_firewall, remove_found, remove_if, runs_on, release_network, release_ip,
}
use openvcloud.Cloudspaces.Conserved.{IsBalanced}
use openvcloud.Cloudspaces.Addresses.{creates, deploys, deletes, start, after, Reach-IsBalanced}
use openvcloud.Cloudspaces.Status.{stuck, deploy-stuck}
use openvcloud.Cloudspaces.Released.{Freed, Returned, delete_frees, has_machines}

abbrev jobs : Jobs
jobs = record {
  guid = λ gid n. elim n [ none ↦ 0 | some k ↦ gid * 100 + k ];
  bare = λ n. elim n [ none ↦ 0 | some k ↦ k ];
  active = λ gid nid. true;
  create_routeros = λ nid guid. some nid;
  destroy_routeros = λ fw. true;
  delete_disk = λ fw. true;
  start_routeros = λ fw. true;
  stop_routeros = λ fw. true;
}

-- An id that is above those of all cloudspaces.
abbrev fresh : Models → ℕ
fresh models = suc (sum (λ (c : Cloudspace). c.id) models.cloudspace)

fresh_new : (m : Models) → any (λ (c : Cloudspace). c.id == fresh m) m.cloudspace ≡ false
fresh_new m = above (sum (λ (c : Cloudspace). c.id) m.cloudspace) m.cloudspace (omega arith)
  where
    above :
        (n : ℕ) (spaces : List Cloudspace)
        → sum (λ (c : Cloudspace). c.id) spaces ≤ n
        → any (λ (c : Cloudspace). c.id == suc n) spaces ≡ false
    above n [] h = refl
    above n (c ∷ spaces) h = ground (arith, above n spaces)

abbrev unlimited : Limits
unlimited cu = none

abbrev account : Account
account = record {
  id = 1;
  name = "acme";
  acl = [];
  status = AccountStatus.confirmed;
  resource_limits = unlimited;
  send_access_emails = false;
}

abbrev order : Order
order = record {
  account_id = 1;
  name = "web";
  access = "jan";
  maximum = unlimited;
  externalnetwork_id = some 5;
  allowed_vm_sizes = [];
}

abbrev public_pool : ExternalNetwork
public_pool = record { id = 5; gid = 7; account_id = 0; subnetmask = 24; ips = 10 ∷ [] }

abbrev node : Stack
node = record {
  id = 2;
  gid = 7;
  reference_id = 3;
  status = StackStatus.enabled;
  images = [];
  error = 0;
}

abbrev grid : Cloud
grid = record {
  models = record {
    account = account ∷ [];
    cloudspace = [];
    vmachine = [];
    disk = [];
    size = [];
    stack = node ∷ [];
    externalnetwork = public_pool ∷ [];
    networkids = record { id = 7; networkids = 40 ∷ [] } ∷ [];
  };
  vfw = [];
}

abbrev created : Cloud
created = (on_models (create fresh (some 7) order) grid).1

abbrev running : Cloud
running = (deploy jobs 1 created).1

abbrev gone : Cloud
gone = (delete jobs 1 running).1

create_one : (on_models (create fresh (some 7) order) grid).0 ≡ ok 1
unfolding create check_order account_of list_active_cloudspaces fill_resource_limits
    get_free_network_id take_first_id set_networkids pull validate_available reserved add_cloudspace
    get_external_ip_address first_free take_first take_ip give_address
create_one = refl

deploy_one : (deploy jobs 1 created).0 ≡ ok (some CloudspaceStatus.deployed)
unfolding create check_order account_of list_active_cloudspaces fill_resource_limits
    get_free_network_id take_first_id set_networkids pull validate_available reserved add_cloudspace
    get_external_ip_address first_free take_first take_ip give_address deploy claim claim_if
    deploy_claimed address_of fw_create store_vfw get_best_provider get_capacity_info loads serves
    sort insert used_memory finish_create finish_deploy
deploy_one = refl

grid-IsBalanced : IsBalanced grid.models
grid-IsBalanced = record {
  pools_unique = (refl, tt);
  spaces_unique = tt;
  one_owner = λ k ip. ground arith;
}

Reach-IsBalanced_example : IsBalanced gone.models
Reach-IsBalanced_example =
    Reach-IsBalanced jobs fresh fresh_new
      (after (after (after start (creates (some 7) order grid)) (deploys 1 created))
        (deletes 1 running))
      grid-IsBalanced

abbrev web : Cloudspace
web = record {
  id = 1;
  name = "web";
  account_id = 1;
  gid = 7;
  acl = [];
  status = CloudspaceStatus.deployed;
  resource_limits = unlimited;
  network_id = some 40;
  externalnetwork_id = some 5;
  externalnetworkip = some (10, 24);
  allowed_vm_sizes = [];
}

abbrev empty_pool : ExternalNetwork
empty_pool = record public_pool { ips = [] }

abbrev with_space : Cloudspace → Cloud
with_space cs = record {
  models = record grid.models { cloudspace = cs ∷ []; externalnetwork = empty_pool ∷ [] };
  vfw = record { guid = 740; gid = 7; nid = some 3; domain = 1; rules = [] } ∷ [];
}

abbrev deleted : Cloud
deleted = (delete jobs 1 (with_space web)).1

delete_one : delete jobs 1 (with_space web) ≡ (ok true, deleted)
unfolding delete release_resources remove_firewall get_vfw_object deployed remove_found runs_on
    remove_if fw_delete fw_destroy release_network release_network_id set_networkids release_ip
    release_external_ip_address add_to_set
delete_one = refl

delete_frees_example :
    (has_machines 1 (with_space web).models ≡ false)
    × (is_deploying web ≡ false)
    × Freed 1 deleted.models
    × Returned web (with_space web).models.externalnetwork deleted.models.externalnetwork
delete_frees_example = delete_frees jobs 1 (with_space web) deleted true web delete_one refl

abbrev waiting : Cloudspace
waiting = record web { status = CloudspaceStatus.virtual; externalnetworkip = none }

deploy-stuck_example :
    (deploy jobs 1 (with_space waiting) ≡ (err python_error, stuck waiting (with_space waiting)))
    × (deploy jobs 1 (stuck waiting (with_space waiting))
        ≡ (ok none, stuck waiting (with_space waiting)))
    × (is_ok (delete jobs 1 (stuck waiting (with_space waiting))).0 ≡ false)
    × ((delete jobs 1 (stuck waiting (with_space waiting))).1 ≡ stuck waiting (with_space waiting))
unfolding first_free
deploy-stuck_example =
    deploy-stuck jobs (with_space waiting) waiting empty_pool refl refl refl refl refl refl
