-- ===== src/Cluster/Spin.antt =====
-- cluster_client::get_key_for_conn for a connection that no hash slot belongs to.
