-- ===== src/Examples.antt =====
-- Concrete runs of the model over the reference library, and the theorems applied at them.
mod Headers
mod Request
mod RequestParser
mod Query
mod Server
mod Routes
mod Receiving
mod Loop
mod Lifecycle
mod Multipart
mod Endpoint
mod Scripted
mod Connection
