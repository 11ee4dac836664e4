-- ===== src/Geometry.antt =====
-- The zone geometry of ingress/consumer/consumer.py and backend/app/utils/geometry.py, which hold
-- the same functions.
pub mod Floats
pub mod Polygon
pub mod Wkt
pub mod Printed
pub mod Laws
pub mod Grid
mod Tests
