-- ===== src/GeoIp.antt =====
-- scripts/geoip/check_geo_policy_ip.py: which part of an IPv4 target the GeoIP policy lets through.
pub mod Networks
pub mod Coverage
pub mod Decide
