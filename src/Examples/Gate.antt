-- ===== src/Examples/Gate.antt =====
-- A poll of the gate during an upgrade.
use odoo_job_worker.Base.{◌≡◌, ◌↔◌, true, false, some, none, List, [], ◌∷◌, All}
use odoo_job_worker.Gate.Probe.{installed, to_upgrade, Module, probe, blocks, probe_open}

abbrev modules : List Module
modules =
    record { name = "base"; state = installed; latest_version = some "19.0.1.3" }
    ∷ record { name = "sale"; state = to_upgrade; latest_version = some "19.0.1.0" }
    ∷ []

probe_open_example :
    ((probe none modules false).open_now ≡ true)
    ↔ ((false ≡ false) × All (λ m. blocks none m ≡ false) modules)
probe_open_example = probe_open none modules false
