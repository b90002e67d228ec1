-- ===== src/Value.antt =====
-- src/value: the tables between the outcomes of the core and what the clients hear.
pub mod SyncErrorTaxonomy
pub mod ErrorTaxonomy
