-- ===== src/Netconf.antt =====
-- The NETCONF client: apps/netconf/netconf_main.c, netconf_lib.c and netconf_filter.c.
pub mod Input
pub mod Filter
mod Tests
