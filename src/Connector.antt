-- ===== src/Connector.antt =====
-- engine/src/hypernet/connector/ConnectorManager.cpp: requests to named connectors, and outgoing
-- connections.
pub mod Requests
pub mod Dials
